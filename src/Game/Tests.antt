-- ===== src/Game/Tests.antt =====
-- Runs of a match.
use reactive_messaging.Prelude.{
  ℕ, suc, ◌*◌, ◌<◌, ◌≤◌, ◌≡◌, refl, arith, List, [], ◌∷◌, none, some, done, leb, ◌==◌, count,
  length,
}
use reactive_messaging.Game.Models.{
  PlayerAction, MatchConfig, net_touch, net_block, successful_service,
}
use reactive_messaging.Game.Events.{
  Players, ourself, opponent, PingPongEvent, turn_flip, soft_fault, score,
}
use reactive_messaging.Game.Umpire.{Umpire, new, process_turn, consider_service_soft_fault}
use reactive_messaging.Game.Reactions.{Chance, Reacted, service_ball}
use reactive_messaging.Game.ClientMessages as ClientMessages
use reactive_messaging.Game.ClientMessages.{endorsed_score}
use reactive_messaging.Game.ServerMessages.{game_started}
use reactive_messaging.Game.Dialogs.{server_answer, client_answer, saying}
use reactive_messaging.Game.Honest.{service_ball_ends}
use reactive_messaging.Game.PreGame.{hand_shake, settled, hand_shake_settles}
use reactive_messaging.Game.PreGame as PreGame
use reactive_messaging.Game.PreGame.{client_version, server_pre_game}
use reactive_messaging.Game.Sessions.{
  pre_game_events, game_events, session_of, umpire_of, arrives, talks, pre_game_ends, starts_game,
  new_server, then_steps,
}
use reactive_messaging.Game.Sessions.Kept.{PeersReach-Kept}
use reactive_messaging.Game.Table.{Table, Hearer, client_hears, server_hears, game_run, kick_off}
use reactive_messaging.Game.Table.Peace.{Peaceful, game_run-Peaceful}
use reactive_messaging.Game.Stall.{at_second_attempt, first_service_stalls}
use reactive_messaging.Game.Mirror.{mirror}
use reactive_messaging.Game.Scores.{points, Fair, is_point}
use reactive_messaging.Game.Match.{play, match-Fair, other_side, mirrored_match, umpires_agree}

abbrev config : MatchConfig ℕ
config = record {
  score_limit = 2;
  rally_timeout_millis = 1000;
  no_bounce_probability = 1;
  no_rebate_probability = 2;
  mishit_probability = 3;
  pre_bounce_probability = 4;
  net_touch_probability = 5;
  net_block_probability = 6;
  ball_out_probability = 7;
}

abbrev lucky : ℕ → PlayerAction ℕ
lucky n = record { lucky_number = n }

abbrev turns : List (Players × PlayerAction ℕ)
turns =
    (ourself, lucky 5)
    ∷ (ourself, lucky 9)
    ∷ (opponent, lucky 7)
    ∷ (ourself, lucky 7)
    ∷ (opponent, lucky 5)
    ∷ []

match-Fair_example :
    (events : List (PingPongEvent ℕ)) × (u : Umpire ℕ) × (play leb turns (new config ourself)
      ≡ done (events, u))
    × Fair u
    × (points u.score ≡ count is_point events)
    × (points u.score < 2 * u.score.limit)
match-Fair_example = match-Fair leb config ourself turns (omega arith) (omega arith)

umpires_agree_example :
    play leb (other_side turns) (mirror (new config ourself))
    ≡ mirrored_match (play leb turns (new config ourself))
umpires_agree_example = umpires_agree leb turns (new config ourself)

-- A ball that touches the net is serviced again, and is a net block in the rally.
touches :
    (u : Umpire ℕ) × (play leb
        ((ourself, lucky 5) ∷ (ourself, lucky 9) ∷ (opponent, lucky 5) ∷ [])
        (new config ourself)
      ≡ done (
        soft_fault (lucky 5) net_touch
            ∷ turn_flip (lucky 9) successful_service
            ∷ score ourself (lucky 5) net_block
            ∷ [],
        u,
      ))
unfolding play new process_turn
touches = (_, refl)

-- The numbers that come up are 5, 6, 7 and so on.
abbrev counting : Chance ℕ ℕ
counting = record { at_most = leb; same = λ a b. a == b; act = λ n. (lucky n, suc n) }

new-Fair : Fair (new config ourself)
unfolding new
new-Fair = record {
  limited = refl;
  in_range = omega arith;
  fits = ((omega arith, omega arith), omega arith, omega arith);
}

service_ball_ends_example :
    (r : Reacted ℕ ℕ) × (service_ball counting 3 (new config ourself) 5 ≡ done (some r))
    × (length r.events ≤ 3)
    × Fair r.umpire
unfolding new
service_ball_ends_example =
    service_ball_ends counting 3 1 (new config ourself) 5 refl refl (omega arith) (omega arith)
      new-Fair

first_service_stalls_example :
    (client_answer counting 3 game_started (new config ourself) 5
      ≡ saying
          (ClientMessages.ping_pong_event (soft_fault (lucky 5) net_touch) ∷ [])
          (at_second_attempt counting config)
          6)
    × (server_answer counting 3
          (ClientMessages.ping_pong_event (soft_fault (lucky 5) net_touch))
          (new config opponent)
          8
        ≡ saying [] (mirror (at_second_attempt counting config)) 8)
unfolding consider_service_soft_fault
first_service_stalls_example = first_service_stalls counting 3 config (lucky 5) 5 6 8 refl refl refl

hand_shake_settles_example : hand_shake 3 2 config ≡ settled 3 2 config (3 == 2)
hand_shake_settles_example = hand_shake_settles 3 2 config

-- Peer 7 comes, tells its version and its configuration, is promoted, and plays.
PeersReach-Kept_example :
    (umpire : Umpire ℕ) × (umpire_of (some (some (new config opponent))) ≡ done umpire)
unfolding pre_game_events game_events session_of server_pre_game
PeersReach-Kept_example =
    PeersReach-Kept 3
      (then_steps
        (then_steps
          (then_steps
            (then_steps (then_steps new_server (arrives 7 refl))
              (talks 7 (client_version 3) none refl refl))
            (talks 7 (PreGame.config config) none refl refl))
          (pre_game_ends 7 refl refl))
        (starts_game 7 refl))
      7

abbrev schedule : List Hearer
schedule =
    client_hears ∷ server_hears ∷ server_hears ∷ client_hears ∷ client_hears ∷ server_hears
    ∷ client_hears ∷ server_hears ∷ client_hears ∷ []

-- The numbers go up from the one that each player starts with.
game_run-Peaceful_example :
    (t : Table ℕ ℕ) × (game_run counting 3 schedule (kick_off config 9 5) ≡ done (some t))
    × Peaceful t
game_run-Peaceful_example =
    game_run-Peaceful counting (λ n. ground arith) 3 (omega arith) config (omega arith)
      (omega arith) 9 5 schedule
