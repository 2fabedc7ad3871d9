-- ===== src/Relay/Standing.antt =====
-- hub_server.go: how long an offered pairing code stands, whatever other connections do.
use ccc_fork.Base.{
  ℕ, ◌+◌, ◌≤◌, ◌≡◌, ◌≢◌, ◌||◌, inl, inr, refl, sym, ◌∙◌, arith, Bool, true, false, not, Option,
  none, some, List, [], ◌∷◌, Text, text_eq, text_eq_iff, is_empty, to_lower, le→ltb, Bool-cases,
  Option-cases, some_eq,
}
use ccc_fork.Relay.{
  HubFrame, HubConn, HubOffer, HubRelay, Output, opened, send, FrameType, instance_role,
  device_role, role_eq, offer_frame, pair_frame, fwd_frame, put, pair_code_ttl_hub, gc, is_over,
  is_conn, handle_open, handle_close, forward, handle_offer, take_offer, answer_pair, handle_pair,
  handle_fwd, dispatch, handle_frame,
}
use ccc_fork.Relay.Offers.{offered, offer_of, handle_pair-taken, codes_by-offered}
use ccc_fork.Relay.Registry.{Registers-open, answer_pair-relay}

-- The frame offers the code.
abbrev pub Publishes : Text → Option HubFrame → Type 0
Publishes c none = ⊥
Publishes c (some f) = (f.t ≡ offer_frame) × (to_lower f.code ≡ c)

-- What may happen to the relay until a time in which nobody offers the code again: connections open, send frames and leave, and
-- the collector runs.
pub data Interim (c : Text) (until : ℕ) (s : HubRelay) : HubRelay → Type 0 where
  nothing : Interim c until s s
  opens :
      {t : HubRelay} (conn : ℕ) (f : Option HubFrame) (hc : HubConn) (t' : HubRelay)
      (out : List Output)
      → Interim c until s t
      → handle_open t conn f ≡ opened hc t' out
      → Interim c until s t'
  reads :
      {t : HubRelay} (accepts : ℕ → Bool) (hc : HubConn) (f : Option HubFrame) (now : ℕ)
      → Interim c until s t
      → now ≤ until
      → ¬ Publishes c f
      → Interim c until s (handle_frame t accepts hc f now).0
  leaves :
      {t : HubRelay} (hc : HubConn) → Interim c until s t → Interim c until s (handle_close t hc)
  collects :
      {t : HubRelay} (now : ℕ) → Interim c until s t → now ≤ until → Interim c until s (gc t now)

lookup-put_other :
    {V : Type 0} (k : Text) (v : Option V) (m : Text → Option V) (j : Text)
    → k ≢ j
    → put k v m j ≡ m j
lookup-put_other k v m j n = elim (Bool-cases (text_eq k j)) [
  | inl e ↦ absurd (n ((text_eq_iff k j).0 e))
  | inr e ↦ rw e refl
]

module _ (c : Text) (o : HubOffer) (now : ℕ) (fresh : now ≤ o.expires) where
  not_over : is_over now o ≡ false
  not_over = le→ltb o.expires now fresh

  abbrev Stands : HubRelay → Type 0
  Stands s = s.codes_by c ≡ some o

  Stands-offer :
      (s : HubRelay) (hc : HubConn) (f : HubFrame)
      → to_lower f.code ≢ c
      → Stands s
      → Stands (handle_offer s hc f now).0
  unfolding handle_offer
  Stands-offer s hc f n e =
      elim (Bool-cases (not (role_eq hc.role instance_role) || is_empty f.code)) [
        | inl x ↦ rw x e
        | inr x ↦ rw x (lookup-put_other (to_lower f.code) _ s.codes_by c n ∙ e)
      ]

  Stands-take : (s : HubRelay) (code : Text) → Stands s → Stands (take_offer s code now).1
  unfolding take_offer
  Stands-take s code e = elim (Option-cases (s.codes_by code)) [
    | inl x ↦ rw (x, take_offer) e
    | inr (y, x) ↦ elim (Bool-cases (is_over now y)) [
      | inl g ↦
          rw (x, g, take_offer)
            (lookup-put_other code none s.codes_by c (λ q. over y g (some_eq (sym x ∙ (rw q e))))
              ∙ e)
      | inr g ↦ rw (x, g, take_offer) e
    ]
  ]
    where
      over : (y : HubOffer) → is_over now y ≡ true → y ≡ o → ⊥
      over y g q = cc (g, q, not_over)

  Stands-pair :
      (s : HubRelay) (accepts : ℕ → Bool) (hc : HubConn) (f : HubFrame)
      → Stands s
      → Stands (handle_pair s accepts hc f now).0
  unfolding handle_pair
  Stands-pair s accepts hc f e =
      elim (Bool-cases (not (role_eq hc.role device_role) || is_empty f.code)) [
        | inl x ↦ rw x e
        | inr x ↦
            let taken = take_offer s (to_lower f.code) now in
            rw (x, answer_pair-relay s hc accepts f taken.0 taken.1)
              (Stands-take s (to_lower f.code) e)
      ]

  Stands-fwd :
      (s : HubRelay) (accepts : ℕ → Bool) (hc : HubConn) (f : HubFrame)
      → Stands s
      → Stands (handle_fwd s accepts hc f).0
  unfolding handle_fwd
  Stands-fwd s accepts hc f e = elim (Bool-cases (is_empty f.to)) [
    | inl x ↦ rw x e
    | inr x ↦ rw x e
  ]

  Stands-dispatch :
      (t : FrameType) (s : HubRelay) (accepts : ℕ → Bool) (hc : HubConn) (f : HubFrame)
      → (t ≡ offer_frame → to_lower f.code ≢ c)
      → Stands s
      → Stands (dispatch t s accepts hc f now).0
  unfolding dispatch
  Stands-dispatch offer_frame s accepts hc f n e = Stands-offer s hc f (n refl) e
  Stands-dispatch pair_frame s accepts hc f n e = Stands-pair s accepts hc f e
  Stands-dispatch fwd_frame s accepts hc f n e = Stands-fwd s accepts hc f e
  Stands-dispatch _ s accepts hc f n e = e

  Stands-frame :
      (s : HubRelay) (accepts : ℕ → Bool) (hc : HubConn) (f : Option HubFrame)
      → ¬ Publishes c f
      → Stands s
      → Stands (handle_frame s accepts hc f now).0
  unfolding handle_frame
  Stands-frame s accepts hc none n e = e
  Stands-frame s accepts hc (some f) n e = Stands-dispatch f.t s accepts hc f (λ q p. n (q, p)) e

  Stands-gc : (s : HubRelay) → Stands s → Stands (gc s now)
  unfolding gc
  Stands-gc s e = rw (e, gc) (rw not_over refl)

codes_by-handle_close : (s : HubRelay) (hc : HubConn) → (handle_close s hc).codes_by ≡ s.codes_by
unfolding handle_close
codes_by-handle_close s hc = elim (Bool-cases (is_conn hc.conn (s.conns hc.pk))) [
  | inl e ↦ rw e refl
  | inr e ↦ rw e refl
]

codes_by-Interim :
    (c : Text) (until : ℕ) (s : HubRelay) (o : HubOffer)
    → until ≤ o.expires
    → s.codes_by c ≡ some o
    → {t : HubRelay} → Interim c until s t
    → t.codes_by c ≡ some o
codes_by-Interim c until s o h e nothing = e
codes_by-Interim c until s o h e (opens {t} conn f hc t' out k q) =
    rw (Registers-open t conn f hc t' out q).codes_kept (codes_by-Interim c until s o h e k)
codes_by-Interim c until s o h e (reads {t} accepts hc f now k l n) =
    Stands-frame c o now (omega (arith, h, l)) t accepts hc f n (codes_by-Interim c until s o h e k)
codes_by-Interim c until s o h e (leaves {t} hc k) =
    rw (codes_by-handle_close t hc) (codes_by-Interim c until s o h e k)
codes_by-Interim c until s o h e (collects {t} now k l) =
    Stands-gc c o now (omega (arith, h, l)) t (codes_by-Interim c until s o h e k)

take_offer-live :
    (s : HubRelay) (c : Text) (now : ℕ) (o : HubOffer)
    → s.codes_by c ≡ some o
    → is_over now o ≡ false
    → take_offer s c now ≡ (some o, s)
unfolding take_offer
take_offer-live s c now o e f = rw (e, take_offer) (rw f)

-- An instance's offer of a code stands for ten minutes: whatever connections do and the collector does meanwhile, the asking for the code by devices included, as long as nobody offers
-- the code again, a device that asks with the code, in capitals or not, by the end of the ten minutes has its frame sent to the connection that is then registered under the instance's key and takes it, addressed to that key
-- and stamped with the device's own, and nothing else is sent.
pub pair-offer_stands :
    (s : HubRelay) (inst : HubConn) (f : HubFrame) (now : ℕ) (t : HubRelay) (accepts : ℕ → Bool)
    (dev : HubConn) (g : HubFrame) (later : ℕ) (peer : HubConn)
    → inst.role ≡ instance_role
    → is_empty f.code ≡ false
    → Interim (to_lower f.code) (now + pair_code_ttl_hub) (offered s inst f now) t
    → dev.role ≡ device_role
    → to_lower g.code ≡ to_lower f.code
    → is_empty g.code ≡ false
    → later ≤ now + pair_code_ttl_hub
    → t.conns inst.pk ≡ some peer
    → accepts peer.conn ≡ true
    → (handle_pair t accepts dev g later).1
      ≡ send peer.conn (record g { v = 1; to = inst.pk; pk = dev.pk }) ∷ []
pair-offer_stands s inst f now t accepts dev g later peer is_instance has_code interim is_device
      same_code asks h there takes =
    let until = now + pair_code_ttl_hub in
    let offer = offer_of inst now in
    let code = to_lower f.code in
    let stands =
      codes_by-Interim code until (offered s inst f now) offer (omega arith)
        (codes_by-offered s inst f now is_instance has_code) interim in
    rw
      (handle_pair-taken t accepts dev g later (some offer, t) is_device asks
        (rw same_code (take_offer-live t code later offer stands (le→ltb until later h))))
      (unfold answer_pair forward in rw (there, forward) (rw takes refl))
