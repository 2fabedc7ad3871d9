-- ===== src/Relay/Registry.antt =====
-- hub_server.go: what holds of the relay's two maps after any run of its handlers and of the collector.
use ccc_fork.Base.{
  ℕ, ◌≡◌, ◌⊎◌, inl, inr, refl, sym, ◌∙◌, ap, arith, Has, Bool, true, not, ◌||◌, Option, none, some,
  List, [], ◌∷◌, Text, text_eq, text_eq_iff, is_empty, to_lower, Bool-cases, Option-cases, some_eq,
}
use ccc_fork.Relay.{
  HubFrame, HubConn, HubOffer, HubRelay, Output, opened, FrameType, HubRole, instance_role,
  device_role, role_eq, role_of, is_open, offer_frame, pair_frame, fwd_frame, put, empty_relay, gc,
  keep_offer, is_over, is_conn, parse_hub_public, register, handle_open, handle_close, handle_offer,
  take_offer, answer_pair, handle_pair, handle_fwd, dispatch, handle_frame,
}

-- 32 bytes in hexadecimal.
abbrev pub IsKey : Text → Type 0
IsKey k = (bytes : List ℕ) × (parse_hub_public k ≡ some bytes)

-- The relay, and every connection that it has opened so far.
pub record System : Type 0 where
  pub relay : HubRelay
  pub seen : List HubConn

pub data Step (sys : System) : System → Type 0 where
  opens :
      (conn : ℕ) (f : Option HubFrame) (hc : HubConn) (s : HubRelay) (out : List Output)
      → handle_open sys.relay conn f ≡ opened hc s out
      → Step sys (record { relay = s; seen = hc ∷ sys.seen })
  reads :
      (accepts : ℕ → Bool) (hc : HubConn) (f : Option HubFrame) (now : ℕ)
      → Has hc sys.seen
      → Step sys (record { relay = (handle_frame sys.relay accepts hc f now).0; seen = sys.seen })
  leaves :
      (hc : HubConn)
      → Has hc sys.seen
      → Step sys (record { relay = handle_close sys.relay hc; seen = sys.seen })
  collects : (now : ℕ) → Step sys (record { relay = gc sys.relay now; seen = sys.seen })

pub data Reach : System → Type 0 where
  start : Reach (record { relay = empty_relay; seen = [] })
  next : {sys sys' : System} → Reach sys → Step sys sys' → Reach sys'

pub record IsSound (sys : System) : Type 0 where
  pub registered :
      (k : Text) (hc : HubConn) → sys.relay.conns k ≡ some hc → Has hc sys.seen × (hc.pk ≡ k)
  pub offered :
      (c : Text) (o : HubOffer)
      → sys.relay.codes_by c ≡ some o
      → (hc : HubConn) × Has hc sys.seen × (hc.pk ≡ o.instance_pk) × (hc.role ≡ instance_role)
  pub keyed : (hc : HubConn) → Has hc sys.seen → IsKey hc.pk

-- A lookup after a write: the written value, or the old one.
lookup-put :
    {V : Type 0} (k : Text) (v : Option V) (m : Text → Option V) (j : Text) (x : V)
    → put k v m j ≡ some x
    → (k ≡ j) × (v ≡ some x) ⊎ (m j ≡ some x)
lookup-put k v m j x h = elim (Bool-cases (text_eq k j)) [
  | inl e ↦ inl ((text_eq_iff k j).0 e, rw e at h)
  | inr e ↦ inr (rw e at h)
]

-- What a successful first message registers.
pub record Registers (s : HubRelay) (conn : ℕ) (hc : HubConn) (s' : HubRelay) : Type 0 where
  pub key : IsKey hc.pk
  pub number : hc.conn ≡ conn
  pub conns_put : s'.conns ≡ put hc.pk (some hc) s.conns
  pub codes_kept : s'.codes_by ≡ s.codes_by

opened-injective :
    {a b : HubConn} {s t : HubRelay} {x y : List Output}
    → opened a s x ≡ opened b t y
    → (a ≡ b) × (s ≡ t)
opened-injective h = (cc, cc)

Registers-register :
    (s : HubRelay) (conn : ℕ) (f : HubFrame) (role : HubRole) (hc : HubConn) (s' : HubRelay)
    (out : List Output)
    → IsKey f.pk
    → register s conn f role ≡ opened hc s' out
    → Registers s conn hc s'
unfolding register
Registers-register s conn f role hc s' out key h =
    let (p, q) = opened-injective h in
    rw (← p, ← q) (record { key = key; number = refl; conns_put = refl; codes_kept = refl })

pub Registers-open :
    (s : HubRelay) (conn : ℕ) (f : Option HubFrame) (hc : HubConn) (s' : HubRelay)
    (out : List Output)
    → handle_open s conn f ≡ opened hc s' out
    → Registers s conn hc s'
unfolding handle_open
Registers-open s conn none hc s' out h = absurd (cc)
Registers-open s conn (some f) hc s' out h =
    elim (Bool-cases (not (is_open f.t) || is_empty f.pk)) [
      | inl e ↦ absurd (cc (rw (e, handle_open) at h))
      | inr e ↦ elim (Option-cases (parse_hub_public f.pk)) [
        | inl p ↦ absurd (cc (rw (e, p, handle_open) at h))
        | inr (bytes, p) ↦ elim (Option-cases (role_of f.role)) [
          | inl r ↦ absurd (cc (rw (e, p, r, handle_open) at h))
          | inr (role, r) ↦
              Registers-register s conn f role hc s' out (bytes, p) (rw (e, p, r, handle_open) at h)
        ]
      ]
    ]

keep_offer-some :
    (now : ℕ) (x : Option HubOffer) (o : HubOffer) → keep_offer now x ≡ some o → x ≡ some o
keep_offer-some now none o h = h
keep_offer-some now (some y) o h = elim (Bool-cases (is_over now y)) [
  | inl e ↦ absurd (cc (rw e at h))
  | inr e ↦ rw e at h
]

module _ (sys : System) (sound : IsSound sys) where
  IsSound-opens :
      (conn : ℕ) (f : Option HubFrame) (hc : HubConn) (s : HubRelay) (out : List Output)
      → handle_open sys.relay conn f ≡ opened hc s out
      → IsSound (record { relay = s; seen = hc ∷ sys.seen })
  IsSound-opens conn f hc s out h =
      let r = Registers-open sys.relay conn f hc s out h in
      record {
        registered = λ k c e.
            elim (lookup-put hc.pk (some hc) sys.relay.conns k c (rw r.conns_put at e)) [
              | inl (same, q) ↦
                  let p : hc ≡ c = some_eq q in (inl p, ap (λ (x : HubConn). x.pk) (sym p) ∙ same)
              | inr old ↦ (inr (sound.registered k c old).0, (sound.registered k c old).1)
            ];
        offered = λ c o e.
            let (who, m, p, i) = sound.offered c o (rw r.codes_kept at e) in (who, inr m, p, i);
        keyed = λ c m. elim m [ inl p ↦ rw (← p) r.key | inr old ↦ sound.keyed c old ];
      }

  -- A change of the codes alone, each of which was there before or is the sender's own.
  IsSound-codes :
      (s : HubRelay)
      → s.conns ≡ sys.relay.conns
      → ((c : Text) (o : HubOffer)
          → s.codes_by c ≡ some o
          → (sys.relay.codes_by c ≡ some o)
            ⊎ ((hc : HubConn) × Has hc sys.seen
                × (hc.pk ≡ o.instance_pk)
                × (hc.role ≡ instance_role)))
      → IsSound (record { relay = s; seen = sys.seen })
  IsSound-codes s same from = record {
    registered = λ k c e. sound.registered k c (rw same at e);
    offered = λ c o e. elim (from c o e) [ inl old ↦ sound.offered c o old | inr new ↦ new ];
    keyed = sound.keyed;
  }

  IsSound-gc : (now : ℕ) → IsSound (record { relay = gc sys.relay now; seen = sys.seen })
  unfolding gc
  IsSound-gc now =
      IsSound-codes (gc sys.relay now) refl
        λ c o e. inl (keep_offer-some now (sys.relay.codes_by c) o e)

  IsSound-close :
      (hc : HubConn) → IsSound (record { relay = handle_close sys.relay hc; seen = sys.seen })
  unfolding handle_close
  IsSound-close hc = elim (Bool-cases (is_conn hc.conn (sys.relay.conns hc.pk))) [
    | inr e ↦ rw e sound
    | inl e ↦ rw e (record {
      registered = λ k c p. elim (lookup-put hc.pk none sys.relay.conns k c p) [
        | inl (_, q) ↦ absurd (cc)
        | inr old ↦ sound.registered k c old
      ];
      offered = sound.offered;
      keyed = sound.keyed;
    })
  ]

-- The offers after a frame: old ones, or the sender's own if it is an instance.
abbrev OfferFrom : HubRelay → HubConn → HubRelay → Type 0
OfferFrom s hc s' =
    (c : Text) (o : HubOffer)
    → s'.codes_by c ≡ some o
    → (s.codes_by c ≡ some o) ⊎ (hc.pk ≡ o.instance_pk) × (hc.role ≡ instance_role)

role_eq-instance : (r : HubRole) → role_eq r instance_role ≡ true → r ≡ instance_role
role_eq-instance r h = ground arith

module _ (s : HubRelay) (hc : HubConn) where
  OfferFrom-offer :
      (f : HubFrame) (now : ℕ)
      → OfferFrom s hc (handle_offer s hc f now).0 × ((handle_offer s hc f now).0.conns ≡ s.conns)
  unfolding handle_offer
  OfferFrom-offer f now =
      elim (Bool-cases (not (role_eq hc.role instance_role) || is_empty f.code)) [
        | inl e ↦ rw e (λ c o h. inl h, refl)
        | inr e ↦ rw e (
          λ c o h. elim (lookup-put (to_lower f.code) _ s.codes_by c o h) [
            | inl (_, q) ↦ inr (
              ap (λ (x : HubOffer). x.instance_pk) (some_eq q),
              role_eq-instance hc.role (ground arith),
            )
            | inr old ↦ inl old
          ],
          refl,
        )
      ]

  OfferFrom-take :
      (code : Text) (now : ℕ)
      → OfferFrom s hc (take_offer s code now).1 × ((take_offer s code now).1.conns ≡ s.conns)
  unfolding take_offer
  OfferFrom-take code now = elim (Option-cases (s.codes_by code)) [
    | inl e ↦ rw (e, take_offer) (λ c o h. inl h, refl)
    | inr (x, e) ↦ elim (Bool-cases (is_over now x)) [
      | inl g ↦
          rw (e, g, take_offer)
            (
              λ c o h. elim (lookup-put code none s.codes_by c o h) [
                | inl (_, q) ↦ absurd (cc)
                | inr old ↦ inl old
              ],
              refl,
            )
      | inr g ↦ rw (e, g, take_offer) (λ c o h. inl h, refl)
    ]
  ]

  pub answer_pair-relay :
      (accepts : ℕ → Bool) (f : HubFrame) (o : Option HubOffer) (s' : HubRelay)
      → (answer_pair accepts hc f (o, s')).0 ≡ s'
  unfolding answer_pair
  answer_pair-relay accepts f none s' = refl
  answer_pair-relay accepts f (some o) s' = refl

  OfferFrom-pair :
      (accepts : ℕ → Bool) (f : HubFrame) (now : ℕ)
      → OfferFrom s hc (handle_pair s accepts hc f now).0
        × ((handle_pair s accepts hc f now).0.conns ≡ s.conns)
  unfolding handle_pair
  OfferFrom-pair accepts f now =
      elim (Bool-cases (not (role_eq hc.role device_role) || is_empty f.code)) [
        | inl e ↦ rw e (λ c o h. inl h, refl)
        | inr e ↦
            let taken = take_offer s (to_lower f.code) now in
            rw (e, answer_pair-relay accepts f taken.0 taken.1)
              (OfferFrom-take (to_lower f.code) now)
      ]

  OfferFrom-fwd :
      (accepts : ℕ → Bool) (f : HubFrame)
      → OfferFrom s hc (handle_fwd s accepts hc f).0
        × ((handle_fwd s accepts hc f).0.conns ≡ s.conns)
  unfolding handle_fwd
  OfferFrom-fwd accepts f = elim (Bool-cases (is_empty f.to)) [
    | inl e ↦ rw e (λ c o h. inl h, refl)
    | inr e ↦ rw e (λ c o h. inl h, refl)
  ]

  OfferFrom-dispatch :
      (t : FrameType) (accepts : ℕ → Bool) (f : HubFrame) (now : ℕ)
      → OfferFrom s hc (dispatch t s accepts hc f now).0
        × ((dispatch t s accepts hc f now).0.conns ≡ s.conns)
  unfolding dispatch
  OfferFrom-dispatch offer_frame accepts f now = OfferFrom-offer f now
  OfferFrom-dispatch pair_frame accepts f now = OfferFrom-pair accepts f now
  OfferFrom-dispatch fwd_frame accepts f now = OfferFrom-fwd accepts f
  OfferFrom-dispatch _ accepts f now = (λ c o h. inl h, refl)

IsSound-reads :
    (sys : System)
    → IsSound sys
    → (accepts : ℕ → Bool) (hc : HubConn) (f : Option HubFrame) (now : ℕ) → Has hc sys.seen
    → IsSound (record { relay = (handle_frame sys.relay accepts hc f now).0; seen = sys.seen })
unfolding handle_frame
IsSound-reads sys sound accepts hc none now m = sound
IsSound-reads sys sound accepts hc (some f) now m =
    let (from, same) = OfferFrom-dispatch sys.relay hc f.t accepts f now in
    IsSound-codes sys sound (dispatch f.t sys.relay accepts hc f now).0 same
      λ c o e. elim (from c o e) [ inl old ↦ inl old | inr (key, i) ↦ inr (hc, m, key, i) ]

pub Step-IsSound : {sys sys' : System} → Step sys sys' → IsSound sys → IsSound sys'
Step-IsSound {sys} (opens conn f hc s out h) sound = IsSound-opens sys sound conn f hc s out h
Step-IsSound {sys} (reads accepts hc f now m) sound = IsSound-reads sys sound accepts hc f now m
Step-IsSound {sys} (leaves hc m) sound = IsSound-close sys sound hc
Step-IsSound {sys} (collects now) sound = IsSound-gc sys sound now

-- After any run of openings, frames, closings and collections from the empty relay: a connection is registered under
-- the key that it opened with, that key is 32 bytes in hexadecimal, and every pairing code stands for the key of a
-- connection that opened as an instance.
pub Reach-IsSound : {sys : System} → Reach sys → IsSound sys
Reach-IsSound start = record {
  registered = λ k hc e. absurd (cc);
  offered = λ c o e. absurd (cc);
  keyed = λ hc m. absurd m;
}
Reach-IsSound (next r st) = Step-IsSound st (Reach-IsSound r)
