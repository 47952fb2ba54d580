-- ===== src/Program/Life.antt =====
-- cmd/kvhttpd/main.go behind the start, and StartCleaner of internal/tx/cleaner.go. The ticker and
-- the listener decide when something happens: the model is given the sequence of it. A request and
-- a round of the expiry are each one event; what is under way at an interrupt counts as before it.
use httpkvdb.Base.{Option, List, [], ◌∷◌}
use httpkvdb.Base.Bytes.{Bytes}
use httpkvdb.Golang.Stream.{Stream}
use httpkvdb.Storage.Disk.{Disk, Env}
use httpkvdb.Tx.Coordinator.{expire_due}
use httpkvdb.Auth.Token.{TokenLib}
use httpkvdb.Http.Message.{Request, Response}
use httpkvdb.Http.Server.{Server, World}
use httpkvdb.Http.Router.{Route, handler}
use httpkvdb.Program.{Started, started, ended, start}

-- A request in its world, a tick of the ticker with the world of each round, or the end of the
-- context at a signal.
pub data Event (Doc : Type 0) : Type 0 where
  request : World Doc → Request → Event Doc
  tick : (Bytes → Env Doc) → Event Doc
  interrupt : Event Doc

-- case <-ticker.C
unfoldable pub clean : {Doc : Type 0} → (Bytes → Env Doc) → Server Doc → Server Doc
clean envs s = let (_, store) = expire_due envs s.store in record s { store = store }

module _ {Doc : Type 0} (route : Request → Route) (mux_answer : Request → Response) where
  -- After an interrupt the ticker is stopped and the listener shut down.
  unfoldable pub live : List (Event Doc) → Server Doc → Server Doc
  live [] s = s
  live (request w r ∷ events) s = live events (handler w route mux_answer s r).1
  live (tick envs ∷ events) s = live events (clean envs s)
  live (interrupt ∷ events) s = s

  -- main, with the events that follow the start
  unfoldable pub run_main :
      Env Doc
      → TokenLib
      → (Bytes → Disk Doc)
      → (Bytes → Bytes)
      → (Bytes → Option Bytes)
      → Bytes
      → Option Stream
      → List (Event Doc)
      → Started Doc
  run_main env lib disk getenv go_unquote config_path file events =
      elim (start env lib disk getenv go_unquote config_path file) [
        | ended e ↦ ended e
        | started s ↦ started (live events s)
      ]
