-- ===== src/Relay.antt =====
-- hub_server.go: the relay of `ccc hub`, with parseHubPublic of hub_crypto.go and hubFrame of hub_proto.go.
-- A connection is known by a number, which stands for its pointer. A frame is what the JSON decoder
-- returned, `none` if it refused. Times are nanoseconds. Whether a write to a connection succeeds is an argument.
-- Each critical section is one step, and a handler runs its own without others between them.
pub mod Routing
pub mod Registry
pub mod Offers
pub mod Standing
mod Tests
use ccc_fork.Base.{
  ℕ, ◌+◌, ◌-◌, ◌*◌, ◌==◌, Bool, true, false, not, ◌&&◌, ◌||◌, Option, none, some, List, [], ◌∷◌,
  ◌++◌, ltb, leb, length, if◌then◌else◌, Text, codes, text_eq, is_empty, to_lower,
}

pub data FrameType : Type 0 where
  open_frame offer_frame pair_frame fwd_frame err_frame ping_frame pong_frame other_frame :
      FrameType

pub record HubFrame : Type 0 where
  pub v : ℕ
  pub t : FrameType
  pub role : Text
  pub pk : Text
  pub to : Text
  pub code : Text
  pub id : Text
  pub n : Text
  pub b : Text
  pub err : Text
  pub name : Text

abbrev pub blank : FrameType → HubFrame
blank t = record {
  v = 1;
  t = t;
  role = [];
  pk = [];
  to = [];
  code = [];
  id = [];
  n = [];
  b = [];
  err = [];
  name = [];
}

unfoldable pub error_frame : Text → Text → HubFrame
error_frame id message = record (blank err_frame) { id = id; err = message }

pub data HubRole : Type 0 where
  instance_role device_role : HubRole

abbrev pub role_eq : HubRole → HubRole → Bool
role_eq instance_role instance_role = true
role_eq device_role device_role = true
role_eq _ _ = false

pub record HubConn : Type 0 where
  pub conn : ℕ
  pub pk : Text
  pub role : HubRole

pub record HubOffer : Type 0 where
  pub instance_pk : Text
  pub expires : ℕ

-- The two maps under the relay's mutex.
pub record HubRelay : Type 0 where
  pub conns : Text → Option HubConn
  pub codes_by : Text → Option HubOffer

abbrev pub empty_relay : HubRelay
empty_relay = record { conns = λ _. none; codes_by = λ _. none }

-- `m[k] = v` and `delete(m, k)`
abbrev pub put {ℓ} : {V : Type ℓ} → Text → Option V → (Text → Option V) → Text → Option V
put k v m j = if text_eq k j then v else m j

abbrev pub pair_code_ttl_hub : ℕ
pair_code_ttl_hub = 600 * 1000000000

-- A frame to a connection, or the closing of one.
pub data Output : Type 0 where
  send : ℕ → HubFrame → Output
  close : ℕ → Output

-- now.After(o.Expires)
abbrev pub is_over : ℕ → HubOffer → Bool
is_over now o = ltb o.expires now

abbrev pub keep_offer : ℕ → Option HubOffer → Option HubOffer
keep_offer now none = none
keep_offer now (some o) = if is_over now o then none else some o

-- one tick of gc
unfoldable pub gc : HubRelay → ℕ → HubRelay
gc s now = record s { codes_by = λ code. keep_offer now (s.codes_by code) }

unfoldable pub hex_value : ℕ → Option ℕ
hex_value c =
    if leb b'0' c && leb c b'9'
    then some (c - b'0')
    else if leb b'a' c && leb c b'f'
    then some (c - b'a' + 10)
    else if leb b'A' c && leb c b'F'
    then some (c - b'A' + 10)
    else none

abbrev cons_byte : Option ℕ → Option ℕ → Option (List ℕ) → Option (List ℕ)
cons_byte (some a) (some b) (some rest) = some ((a * 16 + b) ∷ rest)
cons_byte _ _ _ = none

-- hex.DecodeString
unfoldable pub hex_decode : Text → Option (List ℕ)
unfolding hex_value
hex_decode [] = some []
hex_decode (c ∷ []) = none
hex_decode (c ∷ d ∷ s) = cons_byte (hex_value c) (hex_value d) (hex_decode s)

unfoldable pub parse_hub_public : Text → Option (List ℕ)
unfolding hex_decode
parse_hub_public key = elim (hex_decode key) [
  | none ↦ none
  | some bytes ↦ if length bytes == 32 then some bytes else none
]

abbrev pub role_of : Text → Option HubRole
role_of role =
    if text_eq role (codes "instance")
    then some instance_role
    else if text_eq role (codes "device")
    then some device_role
    else none

pub data Opened : Type 0 where
  -- the handler returns, after the frames
  rejected : List Output → Opened
  opened : HubConn → HubRelay → List Output → Opened

-- `if old, ok := s.conns[open.PK]; ok { old.c.Close() }`
abbrev pub close_old : Option HubConn → List Output
close_old none = []
close_old (some old) = close old.conn ∷ []

unfoldable pub register : HubRelay → ℕ → HubFrame → HubRole → Opened
register s conn f role =
    let hc : HubConn = record { conn = conn; pk = f.pk; role = role } in
    opened hc (record s { conns = put f.pk (some hc) s.conns })
      (close_old (s.conns f.pk)
        ++ send conn (record (blank open_frame) { pk = f.pk; role = f.role }) ∷ [])

abbrev pub is_open : FrameType → Bool
is_open open_frame = true
is_open _ = false

-- The first message of a connection.
unfoldable pub handle_open : HubRelay → ℕ → Option HubFrame → Opened
unfolding register error_frame
handle_open s conn none =
    rejected (send conn (error_frame [] (codes "first message must be open")) ∷ [])
handle_open s conn (some f) =
    if not (is_open f.t) || is_empty f.pk
    then rejected (send conn (error_frame [] (codes "first message must be open")) ∷ [])
    else elim (parse_hub_public f.pk) [
      | none ↦ rejected (send conn (error_frame [] (codes "bad public key")) ∷ [])
      | some key ↦ elim (role_of f.role) [
        | none ↦
            rejected (send conn (error_frame [] (codes "role must be instance or device")) ∷ [])
        | some role ↦ register s conn f role
      ]
    ]

abbrev pub is_conn : ℕ → Option HubConn → Bool
is_conn conn none = false
is_conn conn (some hc) = hc.conn == conn

-- the deferred removal
unfoldable pub handle_close : HubRelay → HubConn → HubRelay
handle_close s hc =
    if is_conn hc.conn (s.conns hc.pk) then record s { conns = put hc.pk none s.conns } else s

-- `forward`, and what the caller writes back when it returns false.
unfoldable pub forward : HubRelay → (ℕ → Bool) → Text → HubFrame → List Output → List Output
forward s accepts to f otherwise = elim (s.conns to) [
  | none ↦ otherwise
  | some peer ↦ if accepts peer.conn then send peer.conn f ∷ [] else otherwise
]

-- The offer under a code, expired ones taken out.
unfoldable pub take_offer : HubRelay → Text → ℕ → Option HubOffer × HubRelay
take_offer s code now = elim (s.codes_by code) [
  | none ↦ (none, s)
  | some o ↦
      if is_over now o
      then (none, record s { codes_by = put code none s.codes_by })
      else (some o, s)
]

unfoldable pub handle_offer : HubRelay → HubConn → HubFrame → ℕ → HubRelay × List Output
handle_offer s hc f now =
    if not (role_eq hc.role instance_role) || is_empty f.code then (s, []) else (
      record s {
        codes_by =
            put (to_lower f.code)
              (some (record { instance_pk = hc.pk; expires = now + pair_code_ttl_hub })) s.codes_by;
      },
      [],
    )

-- After the lookup: the frame goes to the instance under the device's key.
unfoldable pub answer_pair :
    (ℕ → Bool) → HubConn → HubFrame → Option HubOffer × HubRelay → HubRelay × List Output
unfolding forward error_frame
answer_pair accepts hc f (none, s) =
    (s, send hc.conn (error_frame [] (codes "unknown or expired pairing code")) ∷ [])
answer_pair accepts hc f (some o, s) = (
  s,
  forward s accepts o.instance_pk (record f { v = 1; to = o.instance_pk; pk = hc.pk })
      (send hc.conn (error_frame [] (codes "instance is offline")) ∷ []),
)

unfoldable pub handle_pair : HubRelay → (ℕ → Bool) → HubConn → HubFrame → ℕ → HubRelay × List Output
unfolding answer_pair take_offer error_frame
handle_pair s accepts hc f now =
    if not (role_eq hc.role device_role) || is_empty f.code
    then (s, send hc.conn (error_frame [] (codes "pair requires a code")) ∷ [])
    else answer_pair accepts hc f (take_offer s (to_lower f.code) now)

unfoldable pub handle_fwd : HubRelay → (ℕ → Bool) → HubConn → HubFrame → HubRelay × List Output
unfolding forward error_frame
handle_fwd s accepts hc f = if is_empty f.to then (s, []) else (
  s,
  forward s accepts f.to (record f { v = 1; pk = hc.pk })
      (send hc.conn (error_frame f.id (codes "peer offline")) ∷ []),
)

-- The `switch` on the frame's type.
unfoldable pub dispatch :
    FrameType → HubRelay → (ℕ → Bool) → HubConn → HubFrame → ℕ → HubRelay × List Output
unfolding handle_offer handle_pair handle_fwd
dispatch ping_frame s accepts hc f now = (s, send hc.conn (blank pong_frame) ∷ [])
dispatch offer_frame s accepts hc f now = handle_offer s hc f now
dispatch pair_frame s accepts hc f now = handle_pair s accepts hc f now
dispatch fwd_frame s accepts hc f now = handle_fwd s accepts hc f
dispatch _ s accepts hc f now = (s, [])

-- One message of an open connection.
unfoldable pub handle_frame :
    HubRelay → (ℕ → Bool) → HubConn → Option HubFrame → ℕ → HubRelay × List Output
unfolding dispatch
handle_frame s accepts hc none now = (s, [])
handle_frame s accepts hc (some f) now = dispatch f.t s accepts hc f now
