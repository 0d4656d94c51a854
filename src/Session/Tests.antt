-- ===== src/Session/Tests.antt =====
-- Runs of the table of sessions (src/session.rs), and its theorems at inputs. An agent is the number
-- of turns in its history.
use openpaw.Prelude.{ℕ, ◌≡◌, refl, true, some, [], ◌∷◌, Text, codes, text_keyed, nat_keyed}
use openpaw.Dict as Dict
use openpaw.Session.{
  SessionManager, new, new_session, get_or_create, begin_turn, end_turn, evict_idle, session_count,
}
use openpaw.Session.Places.{key_at, begin_turn-key_at}
use openpaw.Session.Turns.{run, begin, finish, evict}

program : Unit {0}
unfolding new new_session get_or_create begin_turn end_turn evict_idle session_count
program = tt

abbrev key : Text
key = codes "agent:main:main"

-- A turn that began at 0 still runs at 4000, when idle sessions are dropped.
abbrev evicted : SessionManager ℕ
evicted = run (begin key 0 0 0 ∷ evict 3600 4000 ∷ []) new

-- The turn ends after the next message came.
abbrev crossed : SessionManager ℕ
crossed = run (begin key 0 4001 4001 ∷ finish 0 7 true 4002 ∷ []) evicted

dropped : session_count evicted ≡ 0
unfolding program
dropped = refl

-- The session of the key is a new one, whose agent knows nothing of the turn.
lost : Dict.get key crossed.sessions ≡ some 1
unfolding program
lost = refl

unseen : (Dict.get 1 crossed.store) ≡ some (new_session 0 key 4001)
unfolding program
unseen = refl

abbrev two_sessions : SessionManager ℕ
two_sessions = run (begin key 0 0 0 ∷ begin (codes "b") 0 50 50 ∷ []) new

stays : (evict_idle 60 100 two_sessions).1 ≡ 1
unfolding program
stays = refl

begin_turn-key_at_example :
    let (m, place) = begin_turn key 0 60 60 two_sessions in
    key_at place (run (evict 60 1000 ∷ begin (codes "b") 0 1001 1001 ∷ []) m) ≡ some key
begin_turn-key_at_example =
    begin_turn-key_at {A = ℕ} (begin key 0 0 0 ∷ begin (codes "b") 0 50 50 ∷ [])
      (evict 60 1000 ∷ begin (codes "b") 0 1001 1001 ∷ []) key 0 60 60
