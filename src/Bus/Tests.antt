-- ===== src/Bus/Tests.antt =====
-- Messages of the bus (src/bus.rs).
use openpaw.Prelude.{◌≡◌, refl, none, codes}
use openpaw.Bus.{
  make_outbound_with_stage_reply, make_outbound_with_stage, make_outbound, make_outbound_with_reply,
}

program : Unit {0}
unfolding make_outbound_with_stage_reply make_outbound_with_stage make_outbound
    make_outbound_with_reply
program = tt

plain_reply :
    make_outbound (codes "cli") (codes "1") (codes "ok")
    ≡ make_outbound_with_reply (codes "cli") (codes "1") (codes "ok") none
unfolding program
plain_reply = refl
