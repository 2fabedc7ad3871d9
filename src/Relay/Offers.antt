-- ===== src/Relay/Offers.antt =====
-- hub_server.go: the life of a pairing code, and of a registration that a newer one replaces.
use ccc_fork.Base.{
  ℕ, ◌+◌, ◌<◌, ◌≡◌, ◌≢◌, refl, arith, Bool, true, false, Option, none, some, [], ◌∷◌, Text, codes,
  text_eq_refl, is_empty, to_lower, lt→ltb,
}
use ccc_fork.Relay.{
  HubFrame, HubConn, HubOffer, HubRelay, send, instance_role, device_role, put, pair_code_ttl_hub,
  error_frame, handle_offer, take_offer, answer_pair, handle_pair, handle_close, is_over,
}

abbrev pub offer_of : HubConn → ℕ → HubOffer
offer_of inst now = record { instance_pk = inst.pk; expires = now + pair_code_ttl_hub }

-- The relay once an instance has published a code at a time.
abbrev pub offered : HubRelay → HubConn → HubFrame → ℕ → HubRelay
offered s hc f now = (handle_offer s hc f now).0

take_offer-over :
    (s : HubRelay) (c : Text) (now : ℕ) (o : HubOffer)
    → s.codes_by c ≡ some o
    → is_over now o ≡ true
    → take_offer s c now ≡ (none, record s { codes_by = put c none s.codes_by })
unfolding take_offer
take_offer-over s c now o e f = rw (e, take_offer) (rw f)

-- A device's request, once its code has been looked up.
pub handle_pair-taken :
    (s : HubRelay) (accepts : ℕ → Bool) (dev : HubConn) (g : HubFrame) (now : ℕ)
    (taken : Option HubOffer × HubRelay)
    → dev.role ≡ device_role
    → is_empty g.code ≡ false
    → take_offer s (to_lower g.code) now ≡ taken
    → handle_pair s accepts dev g now ≡ answer_pair accepts dev g taken
unfolding handle_pair
handle_pair-taken s accepts dev g now taken r a e = simp (r, a, e)

module _ (s : HubRelay) (inst : HubConn) (f : HubFrame) (now : ℕ)
    (is_instance : inst.role ≡ instance_role) (has_code : is_empty f.code ≡ false) where
  handle_offer-accepts :
      handle_offer s inst f now
      ≡ (record s { codes_by = put (to_lower f.code) (some (offer_of inst now)) s.codes_by }, [])
  unfolding handle_offer
  handle_offer-accepts = simp (is_instance, has_code)

  pub codes_by-offered :
      (offered s inst f now).codes_by (to_lower f.code) ≡ some (offer_of inst now)
  codes_by-offered = rw (handle_offer-accepts, offered) (rw (text_eq_refl (to_lower f.code)))

  module _ (accepts : ℕ → Bool) (dev : HubConn) (g : HubFrame) (is_device : dev.role ≡ device_role)
      (same_code : to_lower g.code ≡ to_lower f.code) (asks : is_empty g.code ≡ false)
      (later : ℕ) where
    -- After an instance has offered a code, a device that asks next with the code, in capitals or not, but more than ten
    -- minutes after the offer, is refused, and the relay no longer knows the code.
    pub pair-offer_late :
        now + pair_code_ttl_hub < later
        → ((handle_pair (offered s inst f now) accepts dev g later).1
            ≡ send dev.conn (error_frame [] (codes "unknown or expired pairing code")) ∷ [])
          × ((handle_pair (offered s inst f now) accepts dev g later).0.codes_by (to_lower f.code)
              ≡ none)
    pair-offer_late h =
        rw
          (handle_pair-taken (offered s inst f now) accepts dev g later (none, forgotten) is_device
            asks
            (rw same_code (
              take_offer-over (offered s inst f now) (to_lower f.code) later (offer_of inst now)
                codes_by-offered (lt→ltb (now + pair_code_ttl_hub) later h))))
          (unfold answer_pair in (refl, rw (text_eq_refl (to_lower f.code))))
      where
        forgotten : HubRelay
        forgotten = record (offered s inst f now) {
          codes_by = put (to_lower f.code) none (offered s inst f now).codes_by;
        }

-- The end of a connection changes nothing if another connection is registered under its key.
pub handle_close_replaced :
    (s : HubRelay) (old new : HubConn)
    → s.conns old.pk ≡ some new
    → new.conn ≢ old.conn
    → handle_close s old ≡ s
unfolding handle_close
handle_close_replaced s old new h n = ground (arith, h)
