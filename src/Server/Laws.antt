-- ===== src/Server/Laws.antt =====
-- A graceful end.
use foto.Base.{
  ◌≡◌, ◌≢◌, ◌⊎◌, inl, inr, refl, sym, ap, ◌∙◌, subst, arith, true, false, Option, none, some,
}
use foto.Base.Int.{ℤ}
use foto.Server.{
  HttpServer, IsHttpServer, Serving, listening, awaiting, returned, Watching, waiting,
  shutting_down, done, Process, start, Step, inside, signalled, shut, broken, closed, collected,
  Reach, here, more, exit_status,
}

some-injective {ℓ} : {A : Type ℓ} {a b : A} → some a ≡ some b → a ≡ b
some-injective h = cc

returned-injective :
    {srv : HttpServer} {a b : Option srv.Error}
    → ◌≡◌ {A = Serving srv} (returned a) (returned b)
    → a ≡ b
returned-injective h = cc

exit-none : {E : Type 0} (result : Option E) → exit_status result ≡ 0 → result ≡ none
unfolding exit_status
exit-none none h = refl
exit-none (some e) h = absurd (omega (arith, h))

module _ (srv : HttpServer) (law : IsHttpServer srv) where
  -- No request is in the server, and none can come in.
  abbrev IsDrained : srv.State → Type 0
  IsDrained s = (srv.active s ≡ 0) × (srv.is_closing s ≡ true)

  -- `Serve` has not returned.
  abbrev IsOpen : Serving srv → Type 0
  IsOpen listening = Unit
  IsOpen awaiting = Unit
  IsOpen (returned result) = ⊥

  record IsOrderly (p : Process srv) : Type 0 where
    -- the server closes exactly behind a signal
    waits : p.watching ≡ waiting → srv.is_closing p.server ≡ false
    begun : p.watching ≢ waiting → srv.is_closing p.server ≡ true
    -- a nil that is sent or returned is one of a server that is drained
    sent : p.shutdown_err ≡ some none → IsDrained p.server
    ended : p.serving ≡ returned none → IsDrained p.server
    -- the result of `Shutdown` stays in the channel until it is received
    kept : p.watching ≡ done → IsOpen p.serving → (r : Option srv.Error) × (p.shutdown_err ≡ some r)
    asked : p.serving ≡ awaiting → p.watching ≢ waiting

  moved-IsDrained : (s t : srv.State) → srv.Moves s t → IsDrained s → IsDrained t
  moved-IsDrained s t m (none_left, closing) =
      (omega (arith, law.moves_shrink s t m closing, none_left), law.moves_keep s t m ∙ closing)

  start-IsOrderly : (port : ℤ) → IsOrderly (start srv port)
  unfolding start
  start-IsOrderly port = record {
    waits = λ e. law.starts _;
    begun = λ n. absurd (n refl);
    sent = λ e. cc e;
    ended = λ e. cc e;
    kept = λ e o. cc e;
    asked = λ e. absurd (cc e);
  }

  Step-IsOrderly : (p q : Process srv) → IsOrderly p → Step srv p q → IsOrderly q
  Step-IsOrderly p q h (inside t m) = record {
    waits = λ e. law.moves_keep p.server t m ∙ h.waits e;
    begun = λ n. law.moves_keep p.server t m ∙ h.begun n;
    sent = λ e. moved-IsDrained p.server t m (h.sent e);
    ended = λ e. moved-IsDrained p.server t m (h.ended e);
    kept = h.kept;
    asked = h.asked;
  }
  Step-IsOrderly p q h (signalled w) = record {
    waits = λ e. cc e;
    begun = λ n. law.closes p.server;
    sent = λ e. absurd (cc (sym (h.waits w) ∙ (h.sent e).1));
    ended = λ e. absurd (cc (sym (h.waits w) ∙ (h.ended e).1));
    kept = λ e o. cc e;
    asked = λ e f. cc f;
  }
  Step-IsOrderly p q h (shut result w s) =
      let closing = h.begun (λ e. cc (sym w ∙ e)) in
      record {
        waits = λ e. cc e;
        begun = λ n. closing;
        sent = λ e.
            (law.shuts_drained p.server (subst (srv.Shuts p.server) (some-injective e) s), closing);
        ended = h.ended;
        kept = λ e o. (result, refl);
        asked = λ e f. cc f;
      }
  Step-IsOrderly p q h (broken e l s) = record {
    waits = h.waits;
    begun = h.begun;
    sent = h.sent;
    ended = λ r. cc r;
    kept = λ d o. absurd o;
    asked = λ r. absurd (cc r);
  }
  Step-IsOrderly p q h (closed l s) = record {
    waits = h.waits;
    begun = h.begun;
    sent = h.sent;
    ended = λ r. cc r;
    kept = λ d o. h.kept d (subst IsOpen (sym l) tt);
    asked = λ r w. cc (sym (h.waits w) ∙ law.listens_closed p.server s);
  }
  Step-IsOrderly p q h (collected result l c) = record {
    waits = h.waits;
    begun = h.begun;
    sent = λ e. cc e;
    ended = λ r. h.sent (c ∙ ap some (returned-injective r));
    kept = λ d o. absurd o;
    asked = λ r. absurd (cc r);
  }

  Reach-IsOrderly : (port : ℤ) (p : Process srv) → Reach srv port p → IsOrderly p
  Reach-IsOrderly port p here = start-IsOrderly port
  Reach-IsOrderly port p (more {p = q} r s) = Step-IsOrderly q p (Reach-IsOrderly port q r) s

  Watching-cases : (w : Watching srv) → (w ≡ waiting) ⊎ ((w ≡ shutting_down) ⊎ (w ≡ done))
  Watching-cases waiting = inl refl
  Watching-cases shutting_down = inr (inl refl)
  Watching-cases done = inr (inr refl)

  -- How `Serve` ends, and that it does not wait in vain.
  pub record IsGraceful (p : Process srv) : Type 0 where
    pub finished :
        (result : Option srv.Error)
        → p.serving ≡ returned result
        → exit_status result ≡ 0
        → (srv.active p.server ≡ 0) × (p.watching ≢ waiting)
    pub awaited :
        p.serving ≡ awaiting
        → (p.watching ≡ shutting_down)
          ⊎ ((result : Option srv.Error) × (p.shutdown_err ≡ some result))

  -- At every moment of `Serve`, in whatever order requests, the signal and the returns of the
  -- server's calls come: if it has returned without an error, so that the process exits with the status 0, a signal has
  -- arrived and every request that came in has been answered, and as long as it awaits the result of
  -- `Shutdown`, either `Shutdown` runs or its result is in the channel. The server behaves as net/http
  -- documents.
  pub Reach-IsGraceful : (port : ℤ) (p : Process srv) → Reach srv port p → IsGraceful p
  unfolding exit_status
  Reach-IsGraceful port p r =
      let h = Reach-IsOrderly port p r in
      record {
        finished = λ result e status.
            let drained = h.ended (e ∙ ap returned (exit-none result status)) in
            (drained.0, λ w. cc (sym (h.waits w) ∙ drained.1));
        awaited = λ e. elim (Watching-cases p.watching) [
          | inl w ↦ absurd (h.asked e w)
          | inr (inl w) ↦ inl w
          | inr (inr w) ↦ inr (h.kept w (subst IsOpen (sym e) tt))
        ];
      }
