-- ===== src/Game/Events.antt =====
-- examples/composite_protocol_stacking_common/logic/ping_pong_models.rs: the players, and the events that
-- an umpire tells them.
use reactive_messaging.Game.Models.{PlayerAction, TurnFlipEvents, FaultEvents, GameOverStates}

pub data Players : Type 0 where
  ourself : Players
  opponent : Players

pub data PingPongEvent (Number : Type 0) : Type 0 where
  turn_flip : PlayerAction Number → TurnFlipEvents → PingPongEvent Number
  hard_fault : PlayerAction Number → FaultEvents → PingPongEvent Number
  soft_fault : PlayerAction Number → FaultEvents → PingPongEvent Number
  score : Players → PlayerAction Number → FaultEvents → PingPongEvent Number
  game_over : GameOverStates Number → PingPongEvent Number
