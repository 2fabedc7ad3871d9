-- ===== src/Relay/Routing.antt =====
-- hub_server.go: where the frames of a connection go, and under whose key.
use ccc_fork.Base.{
  ℕ, Bool, Option, none, some, List, [], ◌∷◌, ◌≡◌, ◌⊎◌, inl, inr, refl, sym, Has, Text, codes,
  is_empty, to_lower, Bool-cases, Option-cases, not, ◌||◌,
}
use ccc_fork.Relay.{
  blank, ping_frame, offer_frame, pair_frame, fwd_frame, HubFrame, HubConn, HubOffer, HubRelay,
  Output, send, FrameType, err_frame, pong_frame, error_frame, forward, handle_offer, take_offer,
  answer_pair, handle_pair, handle_fwd, dispatch, handle_frame, is_over, role_eq, device_role,
  instance_role,
}

-- An answer to the connection itself: an error or a pong.
abbrev pub IsReply : HubConn → Output → Type 0
IsReply hc o = (g : HubFrame) × (o ≡ send hc.conn g) × ((g.t ≡ err_frame) ⊎ (g.t ≡ pong_frame))

-- A frame to the connection that is registered under the frame's own address, under the sender's key.
abbrev pub IsForward : HubRelay → HubConn → Output → Type 0
IsForward s hc o =
    (peer : HubConn) × (g : HubFrame) × (s.conns g.to ≡ some peer)
    × (o ≡ send peer.conn g)
    × (g.pk ≡ hc.pk)

abbrev Routed : HubRelay → HubConn → List Output → Type 0
Routed s hc out = (o : Output) → Has o out → IsReply hc o ⊎ IsForward s hc o

Routed-error :
    (s : HubRelay) (hc : HubConn) (id m : Text) → Routed s hc (send hc.conn (error_frame id m) ∷ [])
unfolding error_frame
Routed-error s hc id m o (inl e) = inl (error_frame id m, sym e, inl refl)
Routed-error s hc id m o (inr h) = absurd h

module _ (s : HubRelay) (accepts : ℕ → Bool) (hc : HubConn) where
  Routed-forward :
      (to : Text) (g : HubFrame) (otherwise : List Output)
      → g.to ≡ to
      → g.pk ≡ hc.pk
      → Routed s hc otherwise
      → Routed s hc (forward s accepts to g otherwise)
  unfolding forward
  Routed-forward to g otherwise same key h = elim (Option-cases (s.conns to)) [
    | inl e ↦ rw (e, forward) h
    | inr (peer, e) ↦ elim (Bool-cases (accepts peer.conn)) [
      | inl f ↦
          rw (e, f, forward)
            λ o m. elim m [
              | inl q ↦ inr (peer, g, rw same e, sym q, key)
              | inr none_left ↦ absurd none_left
            ]
      | inr f ↦ rw (e, f, forward) h
    ]
  ]

  Routed-handle_fwd : (f : HubFrame) → Routed s hc (handle_fwd s accepts hc f).1
  unfolding handle_fwd
  Routed-handle_fwd f = elim (Bool-cases (is_empty f.to)) [
    | inl e ↦ rw e λ o h. absurd h
    | inr e ↦
        rw e (Routed-forward f.to _ _ refl refl (Routed-error s hc f.id (codes "peer offline")))
  ]

conns-take_offer :
    (s : HubRelay) (code : Text) (now : ℕ) → (take_offer s code now).1.conns ≡ s.conns
unfolding take_offer
conns-take_offer s code now = elim (Option-cases (s.codes_by code)) [
  | inl e ↦ rw (e, take_offer) refl
  | inr (o, e) ↦ elim (Bool-cases (is_over now o)) [
    | inl f ↦ rw (e, f, take_offer) refl
    | inr f ↦ rw (e, f, take_offer) refl
  ]
]

Routed-answer_pair :
    (accepts : ℕ → Bool) (hc : HubConn) (f : HubFrame) (o : Option HubOffer) (s : HubRelay)
    → Routed s hc (answer_pair accepts hc f (o, s)).1
unfolding answer_pair
Routed-answer_pair accepts hc f none s =
    Routed-error s hc [] (codes "unknown or expired pairing code")
Routed-answer_pair accepts hc f (some o) s =
    Routed-forward s accepts hc o.instance_pk _ _ refl refl
      (Routed-error s hc [] (codes "instance is offline"))

Routed-conns :
    (s s' : HubRelay) (hc : HubConn) (out : List Output)
    → s'.conns ≡ s.conns
    → Routed s' hc out
    → Routed s hc out
Routed-conns s s' hc out e h o m = elim (h o m) [
  | inl a ↦ inl a
  | inr (peer, g, at, q, k) ↦ inr (peer, g, rw (← e) at, q, k)
]

module _ (s : HubRelay) (accepts : ℕ → Bool) (hc : HubConn) where
  Routed-handle_pair : (f : HubFrame) (now : ℕ) → Routed s hc (handle_pair s accepts hc f now).1
  unfolding handle_pair
  Routed-handle_pair f now =
      elim (Bool-cases (not (role_eq hc.role device_role) || is_empty f.code)) [
        | inl e ↦ rw e (Routed-error s hc [] (codes "pair requires a code"))
        | inr e ↦
            let taken = take_offer s (to_lower f.code) now in
            rw e (
              Routed-conns s taken.1 hc _ (conns-take_offer s (to_lower f.code) now)
                (Routed-answer_pair accepts hc f taken.0 taken.1))
      ]

  Routed-dispatch :
      (t : FrameType) (f : HubFrame) (now : ℕ) → Routed s hc (dispatch t s accepts hc f now).1
  unfolding dispatch
  Routed-dispatch ping_frame f now o (inl e) = inl (blank pong_frame, sym e, inr refl)
  Routed-dispatch ping_frame f now o (inr h) = absurd h
  Routed-dispatch offer_frame f now o h =
      elim (Bool-cases (not (role_eq hc.role instance_role) || is_empty f.code)) [
        | inl e ↦ absurd (rw (e, handle_offer) at h)
        | inr e ↦ absurd (rw (e, handle_offer) at h)
      ]
  Routed-dispatch pair_frame f now o h = Routed-handle_pair f now o h
  Routed-dispatch fwd_frame f now o h = Routed-handle_fwd s accepts hc f o h
  Routed-dispatch _ f now o h = absurd h

  -- Whatever frame a connection sends, each frame that the relay sends for it is an error or a pong to that connection
  -- itself, or goes to the connection registered under the address in the frame and carries the sender's own key:
  -- no frame can name another sender.
  pub handle_frame-Routed :
      (f : Option HubFrame) (now : ℕ) (o : Output)
      → Has o (handle_frame s accepts hc f now).1
      → IsReply hc o ⊎ IsForward s hc o
  unfolding handle_frame
  handle_frame-Routed none now o h = absurd h
  handle_frame-Routed (some f) now o h = Routed-dispatch f.t f now o h
