-- ===== src/Manager/Tasks.antt =====
-- pkg/liercd/manager.go: requests that are handled at the same time. A handler runs up to a place where
-- others can come between: create and destroy look for the client in one section of the lock and change
-- the map in another one.
use lierc.Base.{ℕ, List, [], ◌∷◌, ◌++◌, Option, none, some, Text, get_elem?}
use lierc.Unicode.{Unicode}
use lierc.Irc.{IrcGo}
use lierc.Config.{IrcConfig}
use lierc.Connection.Steps
use lierc.Connection.Steps.{take_out}
use lierc.Manager.{Outside, Object, Manager, get_client, remove_client, message_if, delete_event}
use lierc.Manager.Requests.{find_object, add_new, destroy_pointed, raw_by_id}

-- What a handler is yet to do: to make a client and add it, to destroy the client it found, to remove
-- the one of an id.
pub data Task : Type 0 where
  to_add : Text → IrcConfig → Task
  to_destroy : ℕ → Task
  to_remove : Text → Task

pub record Server : Type 0 where
  pub manager : Manager
  pub tasks : List Task

abbrev pub with_manager : (Manager → Manager) → Server → Server
with_manager f s = record s { manager = f s.manager }

abbrev pub later_on : Task → Server → Server
later_on t s = record s { tasks = s.tasks ++ t ∷ [] }

-- "create", up to its look for the client.
unfoldable pub begin_create : Text → Option IrcConfig → Option ℕ → Server → Server
begin_create id none found s = s
begin_create id (some config) (some n) s = s
begin_create id (some config) none s = later_on (to_add id config) s

module _ ⦃u : Unicode⦄ ⦃g : IrcGo⦄ ⦃out : Outside⦄ where
  -- "destroy", up to the call of Destroy.
  unfoldable pub begin_destroy : ℕ → Option (ℕ × Object) → Server → Server
  begin_destroy now none s = s
  begin_destroy now (some (n, o)) s =
      later_on (to_destroy n) (with_manager (message_if (delete_event now o.attempts.client)) s)

  -- Destroy, of the client that the handler points to.
  unfoldable pub destroy_task : ℕ → List Steps.Op → ℕ → Option Object → Server → Server
  unfolding destroy_pointed
  destroy_task now during n none s = s
  destroy_task now during n (some o) s =
      later_on (to_remove o.attempts.client.id) (with_manager (destroy_pointed now n during o) s)

  unfoldable pub go_on : ℕ → List Steps.Op → Option (Task × List Task) → Server → Server
  unfolding destroy_task add_new remove_client
  go_on now during none s = s
  go_on now during (some (to_add id config, rest)) s =
      with_manager (add_new now id config) (record s { tasks = rest })
  go_on now during (some (to_destroy n, rest)) s =
      destroy_task now during n (get_elem? s.manager.objects n) (record s { tasks = rest })
  go_on now during (some (to_remove id, rest)) s =
      with_manager (remove_client id) (record s { tasks = rest })

  -- A request comes, or the handler with the i-th task goes on.
  pub data Op : Type 0 where
    creates : Text → Option IrcConfig → Op
    destroys : ℕ → Text → Op
    raws : ℕ → Text → Option Text → Op
    continues : ℕ → ℕ → List Steps.Op → Op

  unfoldable pub step : Op → Server → Server
  unfolding begin_create begin_destroy go_on take_out get_client find_object raw_by_id
  step (creates id config) s = begin_create id config (get_client id s.manager) s
  step (destroys now id) s = begin_destroy now (find_object id s.manager) s
  step (raws now id body) s = with_manager (λ m. (raw_by_id now body (find_object id m) m).0) s
  step (continues i now during) s = go_on now during (take_out i s.tasks) s

  unfoldable pub run : List Op → Server → Server
  unfolding step
  run [] s = s
  run (op ∷ ops) s = run ops (step op s)
