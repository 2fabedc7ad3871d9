-- ===== src/Background/Words.antt =====
-- background.go and humanDuration of progress.go: what a job says to its bot and to the owner. Integers and times in words,
-- and the quoting of `%q`, are arguments.
use ccc_fork.Base.{
  ℕ, ℤ, ◌+◌, ◌-◌, ◌*◌, ◌/◌, ◌%◌, ◌^◌, Bool, true, false, Option, none, some, List, [], ◌∷◌, ◌++◌,
  ltb, if◌then◌else◌, Text, codes, is_empty, trim_space,
}
use ccc_fork.Base.Bytes.{truncate}
use ccc_fork.Access.{html_escape}
use ccc_fork.Upload.{decimal}
use ccc_fork.Watches.{trim_newlines}
use ccc_fork.Background.{
  BackgroundJob, JobStatus, job_done, job_failed, is_job_running, is_job_failed, status_word,
  background_wake_limit,
}

-- `%d`
abbrev number : ℕ → Text
number n = decimal 20 n

-- `%02d`
abbrev two_digits : ℕ → Text
two_digits n = if ltb n 10 then codes "0" ++ decimal 20 n else decimal 20 n

-- humanDuration, of a duration that is not negative, in nanoseconds
unfoldable pub human_duration : ℕ → Text
unfolding decimal
human_duration d =
    let s = (d + 5 * 10 ^ 8) / 10 ^ 9 in
    if ltb s 60
    then number s ++ codes "s"
    else if ltb s 3600
    then number (s / 60) ++ (codes "m" ++ (two_digits (s % 60) ++ codes "s"))
    else number (s / 3600) ++ (codes "h" ++ (two_digits (s % 3600 / 60) ++ codes "m"))

-- A line for a column that is set.
abbrev line_if : {A : Type 0} → Text → (A → Text) → Option A → Text
line_if label words none = []
line_if label words (some a) = label ++ (words a ++ codes "\n")

-- A line for a text that is not empty.
abbrev line_of : Text → Text → Text
line_of label [] = []
line_of label (c ∷ s) = label ++ ((c ∷ s) ++ codes "\n")

abbrev output_lines : Text → Text → Text → Text
output_lines label none_label out =
    if is_empty out then none_label else label ++ (truncate out background_wake_limit ++ codes "\n")

-- renderBackgroundWake
unfoldable pub render_background_wake : (ℤ → Text) → (Text → Text) → BackgroundJob → Text
unfolding decimal truncate
render_background_wake show quote j =
    codes "Background job #"
    ++ (number j.id
        ++ (codes " "
            ++ (quote j.name
                ++ (codes " "
                    ++ ((if is_job_failed j.status then codes "failed" else codes "finished")
                        ++ (codes ".\n"
                            ++ (line_if (codes "Exit code: ") show j.exit_code
                                ++ (line_of (codes "Error: ") j.error
                                    ++ output_lines (codes "\nstdout/stderr (truncated):\n")
                                        (codes "\n(no output)\n") (trim_space j.output)))))))))

-- jobNoticeName
unfoldable pub job_notice_name : BackgroundJob → Text
unfolding truncate
job_notice_name j =
    let name = trim_space j.name in
    truncate (if is_empty name then trim_space j.command else name) 80

abbrev noticed : Text → BackgroundJob → Text
noticed label j =
    label ++ (number j.id ++ (codes " <i>" ++ (html_escape (job_notice_name j) ++ codes "</i>")))

-- renderJobResumedNotice
unfoldable pub render_job_resumed_notice : BackgroundJob → Text
unfolding decimal job_notice_name
render_job_resumed_notice j = noticed (codes "▶" ++ (0xfe0f ∷ codes " Resumed background job #")) j

-- renderJobFailedNotice
unfoldable pub render_job_failed_notice : BackgroundJob → Text
unfolding decimal job_notice_name truncate
render_job_failed_notice j =
    let detail = trim_space j.error in
    noticed (codes "❌ Background job #") j
    ++ (codes " failed.\n<code>"
        ++ (html_escape (truncate (if is_empty detail then codes "failed" else detail) 400)
            ++ codes "</code>"))

-- formatBackgroundJob; `at` is a time in RFC 3339
unfoldable pub format_background_job : (ℤ → Text) → (ℕ → Text) → BackgroundJob → Text
unfolding decimal truncate trim_newlines
format_background_job show at j = trim_newlines (
    codes "job #"
    ++ (number j.id
        ++ (codes " ["
            ++ (status_word j.status
                ++ (codes "] "
                    ++ (j.name
                        ++ (codes "\nkind: shell\ncommand: "
                            ++ (j.command
                                ++ (codes "\n"
                                    ++ (line_if (codes "started: ") at j.started_at
                                        ++ (line_if (codes "ended: ") at j.ended_at
                                            ++ (line_if (codes "exit: ") show j.exit_code
                                                ++ (line_of (codes "error: ") j.error
                                                    ++ output_lines (codes "\noutput:\n") []
                                                        (trim_space j.output))))))))))))))

abbrev since_line : ℕ → Bool → Option ℕ → Text
since_line now false t = []
since_line now true none = []
since_line now true (some t) = codes " · running " ++ human_duration (now - t)

abbrev exit_line : (ℤ → Text) → JobStatus → Option ℤ → Text
exit_line show status none = []
exit_line show job_done (some c) = codes " · exit " ++ show c
exit_line show job_failed (some c) = codes " · exit " ++ show c
exit_line show _ (some c) = []

unfoldable list_lines : (ℤ → Text) → ℕ → List BackgroundJob → Text
unfolding decimal human_duration
list_lines show now [] = []
list_lines show now (j ∷ js) =
    codes "#"
    ++ (number j.id
        ++ (codes " ["
            ++ (status_word j.status
                ++ (codes "] "
                    ++ (j.name
                        ++ (since_line now (is_job_running j.status) j.started_at
                            ++ (exit_line show j.status j.exit_code
                                ++ (codes "\n" ++ list_lines show now js))))))))

-- formatBackgroundList
unfoldable pub format_background_list : (ℤ → Text) → ℕ → List BackgroundJob → Text
unfolding list_lines trim_newlines
format_background_list show now [] = codes "no background jobs"
format_background_list show now (j ∷ js) = trim_newlines (list_lines show now (j ∷ js))
