-- ===== src/Relay/Tests.antt =====
-- hub_server.go: runs of the model.
use ccc_fork.Base.{
  ◌+◌, ◌≡◌, ◌⊎◌, inl, refl, arith, true, none, some, [], ◌∷◌, Text, codes, text_eq, to_lower,
}
use ccc_fork.Relay.{
  gc, pair_code_ttl_hub, HubFrame, HubConn, HubRelay, send, blank, open_frame, fwd_frame,
  offer_frame, pair_frame, instance_role, device_role, handle_open, handle_frame, handle_pair,
  parse_hub_public, empty_relay, put, error_frame,
}
use ccc_fork.Relay.Routing.{IsReply, IsForward, handle_frame-Routed}
use ccc_fork.Relay.Registry.{System, Step, Reach, IsSound, Reach-IsSound}
use ccc_fork.Relay.Standing.{Interim, nothing, reads, collects, pair-offer_stands}
use ccc_fork.Relay.Offers.{offered, pair-offer_late}

abbrev inst : HubConn
inst = record { conn = 1; pk = codes "aa"; role = instance_role }

abbrev dev : HubConn
dev = record { conn = 2; pk = codes "bb"; role = device_role }

abbrev relay : HubRelay
relay = record empty_relay { conns = put (codes "aa") (some inst) empty_relay.conns }

abbrev letter : HubFrame
letter = record (blank fwd_frame) { to = codes "aa"; pk = codes "cc" }

abbrev offering : HubFrame
offering = record (blank offer_frame) { code = codes "K7" }

abbrev asking : HubFrame
asking = record (blank pair_frame) { code = codes "k7" }

handle_frame-Routed_example :
    IsReply dev (send 1 (record letter { pk = codes "bb" }))
    ⊎ IsForward relay dev (send 1 (record letter { pk = codes "bb" }))
unfolding handle_frame text_eq
handle_frame-Routed_example =
    handle_frame-Routed relay (λ _. true) dev (some letter) 5
      (send 1 (record letter { pk = codes "bb" })) (inl refl)

pair-offer_late_example :
    ((handle_pair (offered relay inst offering 0) (λ _. true) dev asking 600000000001).1
      ≡ send 2 (error_frame [] (codes "unknown or expired pairing code")) ∷ [])
    × ((handle_pair (offered relay inst offering 0) (λ _. true) dev asking 600000000001).0.codes_by
          (codes "k7")
        ≡ none)
unfolding to_lower
pair-offer_late_example =
    pair-offer_late relay inst offering 0 refl refl (λ _. true) dev asking refl refl refl
      600000000001 (omega arith)

-- Another device asks with the code, the collector runs, and the first device writes to the instance.
abbrev busy : HubRelay
busy =
    (handle_frame
      (gc (handle_frame (offered relay inst offering 0) (λ _. true) dev (some asking) 7).0 8)
      (λ _. true) dev (some letter) 9).0

busy-Interim :
    Interim (to_lower offering.code) (0 + pair_code_ttl_hub) (offered relay inst offering 0) busy
busy-Interim =
    reads (λ _. true) dev (some letter) 9
      (collects 8
        (reads (λ _. true) dev (some asking) 7 nothing (omega arith) (λ p. absurd (cc p.0)))
        (omega arith))
      (omega arith) (λ p. absurd (cc p.0))

pair-offer_stands_example :
    (handle_pair busy (λ _. true) dev asking 600000000000).1
    ≡ send 1 (record asking { v = 1; to = codes "aa"; pk = codes "bb" }) ∷ []
unfolding to_lower gc handle_frame text_eq
pair-offer_stands_example =
    pair-offer_stands relay inst offering 0 busy (λ _. true) dev asking 600000000000 inst refl refl
      busy-Interim refl refl refl (omega arith) refl refl

abbrev late : HubConn
late = record { conn = 9; pk = codes "aa"; role = instance_role }

abbrev key : Text
key = codes "00112233445566778899aabbccddeeff00112233445566778899aabbccddeeff"

abbrev hello : HubFrame
hello = record (blank open_frame) { pk = key; role = codes "instance" }

abbrev keyed : HubConn
keyed = record { conn = 3; pk = key; role = instance_role }

abbrev one_open : System
one_open = record {
  relay = record empty_relay { conns = put key (some keyed) empty_relay.conns };
  seen = keyed ∷ [];
}

Reach-IsSound_example : IsSound one_open
unfolding handle_open parse_hub_public text_eq
Reach-IsSound_example = Reach-IsSound {sys = one_open} (
    Reach.next Reach.start (
      Step.opens 3 (some hello) keyed one_open.relay
        (send 3 (record (blank open_frame) { pk = key; role = codes "instance" }) ∷ []) refl))
