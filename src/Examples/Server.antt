-- ===== src/Examples/Server.antt =====
-- A server at a concrete run: a request comes in, the signal arrives, and the request is answered.
use foto.Base.{ℕ, suc, ◌≤◌, ◌≡◌, refl, arith, Bool, true, false, Option, none, some}
use foto.Base.Int.{pos}
use foto.Server.{
  HttpServer, IsHttpServer, returned, done, start, inside, signalled, shut, closed, collected,
  Reach, here, more,
}
use foto.Server.Laws.{IsGraceful, Reach-IsGraceful}

record Requests : Type 0 where
  active : ℕ
  closing : Bool

data Moves (s : Requests) : Requests → Type 0 where
  comes : s.closing ≡ false → Moves s (record s { active = suc s.active })
  answers : (n : ℕ) → s.active ≡ suc n → Moves s (record s { active = n })

abbrev Listens : Requests → Option ℕ → Type 0
Listens s none = s.closing ≡ true
Listens s (some e) = s.closing ≡ false

abbrev Shuts : Requests → Option ℕ → Type 0
Shuts s none = s.active ≡ 0
Shuts s (some e) = Unit

abbrev toy_server : HttpServer
toy_server = record {
  State = Requests;
  Error = ℕ;
  initial = λ settings. record { active = 0; closing = false };
  active = λ s. s.active;
  is_closing = λ s. s.closing;
  Moves = Moves;
  Listens = Listens;
  close = λ s. record s { closing = true };
  Shuts = Shuts;
}

Moves-keep : (s t : Requests) → Moves s t → t.closing ≡ s.closing
Moves-keep s t (comes c) = refl
Moves-keep s t (answers n e) = refl

Moves-shrink : (s t : Requests) → Moves s t → s.closing ≡ true → t.active ≤ s.active
Moves-shrink s t (comes c) h = cc
Moves-shrink s t (answers n e) h = omega (arith, e)

toy_server-IsHttpServer : IsHttpServer toy_server
toy_server-IsHttpServer = record {
  starts = λ s. refl;
  moves_keep = Moves-keep;
  moves_shrink = Moves-shrink;
  closes = λ s. refl;
  listens_closed = λ s h. h;
  shuts_drained = λ s h. h;
}

-- Behind the request, the signal, the end of `ListenAndServe`, the answer and the end of `Shutdown`.
last : Reach toy_server (pos 80) (record (start toy_server (pos 80)) {
  server = record { active = 0; closing = true };
  serving = returned none;
  watching = done;
  shutdown_err = none;
})
unfolding start
last =
    more
      (more
        (more (more (more (more here (inside _ (comes refl))) (signalled refl)) (closed refl refl))
          (inside _ (answers 0 refl)))
        (shut none refl refl))
      (collected none refl refl)

Reach-IsGraceful_example :
    IsGraceful toy_server toy_server-IsHttpServer (record (start toy_server (pos 80)) {
      server = record { active = 0; closing = true };
      serving = returned none;
      watching = done;
      shutdown_err = none;
    })
Reach-IsGraceful_example = Reach-IsGraceful toy_server toy_server-IsHttpServer (pos 80) _ last
