-- ===== src/Server.antt =====
-- `Serve` of go/cmd/api/app/server.go: two goroutines around an `http.Server`, which is a parameter. What
-- happens in the server, the signal, and the moments at which its calls return come in any order.
pub mod Laws
use foto.Base.{ℕ, ◌≤◌, ◌≡◌, Bool, true, false, Option, none, some, Bytes, ◌++◌, codes, ◌*◌}
use foto.Base.Int.{ℤ}
use foto.Base.Duration.{second, minute}
use foto.Base.Decimal.{decimal_ℤ}

-- The fields that `Serve` sets, and the time that `Shutdown` gets.
pub record Settings : Type 0 where
  pub addr : Bytes
  pub idle_timeout : ℕ
  pub read_timeout : ℕ
  pub write_timeout : ℕ
  pub shutdown_timeout : ℕ

unfoldable pub settings : ℤ → Settings
settings port = record {
  addr = codes ":" ++ decimal_ℤ port;
  idle_timeout = minute;
  read_timeout = 30 * second;
  write_timeout = 30 * second;
  shutdown_timeout = 30 * second;
}

-- `http.Server`: the requests in it, whether `Shutdown` has begun, what goes on inside, and what the
-- two calls can return at a moment: `none` is `ErrServerClosed` for `ListenAndServe` and nil for
-- `Shutdown`, which may also return the error of its context or of a listener.
pub record HttpServer : Type 1 where
  pub State : Type 0
  pub Error : Type 0
  pub initial : Settings → State
  pub active : State → ℕ
  pub is_closing : State → Bool
  pub Moves : State → State → Type 0
  pub Listens : State → Option Error → Type 0
  pub close : State → State
  pub Shuts : State → Option Error → Type 0

-- What net/http documents: `Shutdown` first closes the listeners, so that no request comes in any more,
-- and returns nil only when all have been answered; `ListenAndServe` returns `ErrServerClosed` only
-- behind a `Shutdown`.
pub record IsHttpServer (srv : HttpServer) : Type 0 where
  pub starts : (s : Settings) → srv.is_closing (srv.initial s) ≡ false
  pub moves_keep : (s t : srv.State) → srv.Moves s t → srv.is_closing t ≡ srv.is_closing s
  pub moves_shrink :
      (s t : srv.State) → srv.Moves s t → srv.is_closing s ≡ true → srv.active t ≤ srv.active s
  pub closes : (s : srv.State) → srv.is_closing (srv.close s) ≡ true
  pub listens_closed : (s : srv.State) → srv.Listens s none → srv.is_closing s ≡ true
  pub shuts_drained : (s : srv.State) → srv.Shuts s none → srv.active s ≡ 0

module _ (srv : HttpServer) where
  -- Where `Serve` itself stands: in `ListenAndServe`, at `<-shutdownErr`, or behind its return.
  pub data Serving : Type 0 where
    listening : Serving
    awaiting : Serving
    returned : Option srv.Error → Serving

  -- Where its goroutine stands: at `<-quit`, in `Shutdown`, or at its end.
  pub data Watching : Type 0 where
    waiting : Watching
    shutting_down : Watching
    done : Watching

  -- Both, with the server and the channel `shutdownErr`, which holds one value.
  pub record Process : Type 0 where
    pub server : srv.State
    pub serving : Serving
    pub watching : Watching
    pub shutdown_err : Option (Option srv.Error)

  unfoldable pub start : ℤ → Process
  unfolding settings
  start port = record {
    server = srv.initial (settings port);
    serving = listening;
    watching = waiting;
    shutdown_err = none;
  }

  pub data Step (p : Process) : Process → Type 0 where
    -- a request comes in or is answered
    inside : (t : srv.State) → srv.Moves p.server t → Step p (record p { server = t })
    -- SIGINT or SIGTERM arrives, and `Shutdown` begins
    signalled :
        p.watching ≡ waiting
        → Step p (record p { server = srv.close p.server; watching = shutting_down })
    -- `Shutdown` returns, and its result is sent
    shut :
        (result : Option srv.Error)
        → p.watching ≡ shutting_down
        → srv.Shuts p.server result
        → Step p (record p { watching = done; shutdown_err = some result })
    -- `ListenAndServe` returns an error that is not `ErrServerClosed`
    broken :
        (e : srv.Error)
        → p.serving ≡ listening
        → srv.Listens p.server (some e)
        → Step p (record p { serving = returned (some e) })
    -- `ListenAndServe` returns `ErrServerClosed`
    closed :
        p.serving ≡ listening → srv.Listens p.server none → Step p (record p { serving = awaiting })
    -- the result of `Shutdown` is received, and returned if it is an error
    collected :
        (result : Option srv.Error)
        → p.serving ≡ awaiting
        → p.shutdown_err ≡ some result
        → Step p (record p { serving = returned result; shutdown_err = none })

  pub data Reach (port : ℤ) : Process → Type 0 where
    here : Reach port (start port)
    more : {p q : Process} → Reach port p → Step p q → Reach port q

-- The exit status of the process: `main` of go/cmd/api/main.go on the error that `run` returns.
unfoldable pub exit_status : {E : Type 0} → Option E → ℕ
exit_status none = 0
exit_status (some e) = 1
