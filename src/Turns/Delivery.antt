-- ===== src/Turns/Delivery.antt =====
-- runner.go: the delivery of the messages between bots.
use ccc_fork.Base.{
  ℕ, ◌==◌, ==_iff, ◌≡◌, ◌≢◌, inl, inr, refl, sym, ap, ◌∙◌, arith, true, false, Option, none, some,
  List, [], ◌∷◌, filter, Has, Has-append_left, Has-append_right, Has-append, Has-filter_intro,
  Bool-cases, Option-cases, Answers, Text,
}
use ccc_fork.Turns.{
  Turn, InboxMessage, Store, Database, Source, queued, is_pending, delivered, enqueue, inbox_input,
  deliver_one, deliver_each, deliver_inbox, bot,
}
use ccc_fork.Turns.Writes.{Has-write_cases}

-- A turn with a text, queued for a bot.
abbrev pub IsQueuedFor : ℕ → Text → List Turn → Type 0
IsQueuedFor to text turns =
    (t : Turn) × Has t turns × (t.bot_id ≡ to) × (t.status ≡ queued) × (t.input ≡ text)

-- The insertion of a turn succeeds.
abbrev pub Creates : Database → Type 0
Creates db = (t : Turn) (turns : List Turn) → db.turns.create t turns ≢ none

-- What a successful insertion comes to.
record Enqueues (s : Store) (to : ℕ) (text : Text) (s' : Store) : Type 0 where
  same_inbox : s'.inbox ≡ s.inbox
  stands : IsQueuedFor to text s'.turns
  kept : (t : Turn) → Has t s.turns → Has t s'.turns

module _ (db : Database) (creates : Creates db) where
  create-keeps :
      (t : Turn) (turns : List Turn) {turns' : List Turn}
      → db.turns.create t turns ≡ some turns'
      → Has t turns' × ((u : Turn) → Has u turns → Has u turns')
  create-keeps t turns e =
      let (before, after, p, q) = db.turns.create_lem t turns _ e in
      (
        rw q (Has-append_right t before (t ∷ after) (inl refl)),
        λ u h. rw q (elim (Has-append u before after (rw p at h)) [
          | inl m ↦ Has-append_left u before (t ∷ after) m
          | inr m ↦ Has-append_right u before (t ∷ after) (inr m)
        ]),
      )

  enqueue-Enqueues :
      (s : Store) (id to : ℕ) (source : Source) (text : Text) (trigger : ℕ)
      → (s' : Store) × (enqueue db s id to source text trigger ≡ some s') × Enqueues s to text s'
  unfolding enqueue
  enqueue-Enqueues s id to source text trigger =
      let t : Turn = record {
        id = id;
        bot_id = to;
        source = source;
        input = text;
        status = queued;
        stop_reason = [];
        trigger_message_id = trigger;
      } in
      elim (Option-cases (db.turns.create t s.turns)) [
        | inl e ↦ absurd (creates t s.turns e)
        | inr (turns, e) ↦
            let (m, keeps) = create-keeps t s.turns e in
            (
              record s { turns = turns },
              rw (e, enqueue) refl,
              record { same_inbox = refl; stands = (t, m, refl, refl, refl); kept = keeps },
            )
      ]

-- A message and its turn.
module _ (db : Database) (creates : Creates db) (answers : Answers db.inbox) (mint : List Turn → ℕ)
    (names : ℕ → Option Text) (now from : ℕ) where
  record Delivers (s : Store) (m : InboxMessage) (s' : Store) : Type 0 where
    still_pending :
        (n : InboxMessage)
        → Has n s'.inbox
        → is_pending from n ≡ true
        → Has n s.inbox × (n.id ≢ m.id)
    queued_now : IsQueuedFor m.to_bot_id (inbox_input names m) s'.turns
    turns_kept : (t : Turn) → Has t s.turns → Has t s'.turns

  deliver_one-Delivers :
      (m : InboxMessage) (s : Store) → Delivers s m (deliver_one db mint names now m s)
  unfolding deliver_one
  deliver_one-Delivers m s =
      let (s', e, done) =
        enqueue-Enqueues db creates s (mint s.turns) m.to_bot_id bot (inbox_input names m) 0 in
      rw (e, deliver_one)
        (record {
          still_pending = λ n h p.
              let (old, k, c) =
                Has-write_cases db.inbox answers (λ x. x.id == m.id) (delivered now (mint s.turns))
                  s'.inbox n h in
              elim c [
                | inl (f, same) ↦ (
                  rw (same, ← done.same_inbox) k,
                  λ q. cc ((==_iff old.id m.id).1 (ap (λ (x : InboxMessage). x.id) (sym same) ∙ q)),
                )
                | inr (f, same) ↦ absurd (ground (arith, rw same at p))
              ];
          queued_now = done.stands;
          turns_kept = done.kept;
        })

  deliver_each-Delivers :
      (pending : List InboxMessage) (s : Store)
      → ((n : InboxMessage)
          → Has n (deliver_each db mint names now pending s).inbox
          → is_pending from n ≡ true
          → Has n s.inbox × ((m : InboxMessage) → Has m pending → n.id ≢ m.id))
        × ((m : InboxMessage)
            → Has m pending
            → IsQueuedFor m.to_bot_id
                (inbox_input names m)
                (deliver_each db mint names now pending s).turns)
        × ((t : Turn) → Has t s.turns → Has t (deliver_each db mint names now pending s).turns)
  unfolding deliver_each
  deliver_each-Delivers [] s = (λ n h p. (h, λ m k. absurd k), λ m k. absurd k, λ t h. h)
  deliver_each-Delivers (x ∷ rest) s =
      let one = deliver_one-Delivers x s in
      let (a, b, c) = deliver_each-Delivers rest (deliver_one db mint names now x s) in
      (
        λ n h p.
            let (k, apart) = a n h p in
            let (j, first) = one.still_pending n k p in
            (j, λ m i. elim i [ inl q ↦ rw (← q) first | inr r ↦ apart m r ]),
        λ m i. elim i [
          | inl q ↦ let (t, h, e₁, e₂, e₃) = one.queued_now in rw (← q) (t, c t h, e₁, e₂, e₃)
          | inr r ↦ b m r
        ],
        λ t h. c t (one.turns_kept t h),
      )

  -- After the messages of a bot are delivered, or all messages for the sender 0, none of them is pending, and each that was pending
  -- stands as a queued turn of the bot that it is to; no turn is lost. It holds if the insertion of turns and the
  -- statements on the inbox succeed.
  pub deliver_inbox-all :
      (s : Store)
      → ((n : InboxMessage)
          → Has n (deliver_inbox db mint names s from now).inbox
          → is_pending from n ≡ false)
        × ((m : InboxMessage)
            → Has m s.inbox
            → is_pending from m ≡ true
            → IsQueuedFor m.to_bot_id
                (inbox_input names m)
                (deliver_inbox db mint names s from now).turns)
        × ((t : Turn) → Has t s.turns → Has t (deliver_inbox db mint names s from now).turns)
  unfolding deliver_inbox
  deliver_inbox-all s =
      let (a, b, c) = deliver_each-Delivers (filter (is_pending from) s.inbox) s in
      rw (answers.select_answers (is_pending from) s.inbox, deliver_inbox)
        (
          λ n h. elim (Bool-cases (is_pending from n)) [
            | inl p ↦
                let (k, apart) = a n h p in
                absurd (apart n (Has-filter_intro (is_pending from) n s.inbox k p) refl)
            | inr p ↦ p
          ],
          λ m h p. b m (Has-filter_intro (is_pending from) m s.inbox h p),
          c,
        )
