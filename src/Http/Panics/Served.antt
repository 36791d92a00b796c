-- ===== src/Http/Panics/Served.antt =====
-- What the client gets and what is logged, whether or not a handler panics.
use go_with_me.Base.{ℕ, String, Option, none, List, [], ◌∷◌, ◌++◌, ◌≡◌, refl, arith, ◌⊎◌, inl, inr}
use go_with_me.World.{World, Env}
use go_with_me.Http.{HttpRequest, Identity, Handler, Response, nobody}
use go_with_me.Http.Audit.{audit}
use go_with_me.Http.RequestId.{identified}
use go_with_me.Http.Routes.{Server, Route, endpoint, handle}
use go_with_me.Http.Panics.{
  LogLine, Outcome, answers, panics, Chain, chain_of, abort_with, panic_line, request_line,
  recovery, recovered, request_logger, logged, global, audit_chain, internal_error,
}

-- How the chain has ended, in what the client gets and in the lines before the request's own.
abbrev pub IsEnd :
    (Response → Response → Response)
    → HttpRequest
    → Outcome × World × List LogLine
    → Response
    → List LogLine
    → Type 0
IsEnd again r inner answer lines =
    ((inner.0 ≡ answers answer) × (lines ≡ inner.2))
    ⊎ ((cause : String) × (written : Option Response) × (inner.0 ≡ panics cause written)
        × (answer ≡ abort_with again written)
        × (lines ≡ inner.2 ++ panic_line cause r ∷ []))

module _ (env : Env) (again : Response → Response → Response) where
  ends :
      (r : HttpRequest) (start : ℕ) (inner : Outcome × World × List LogLine)
      → (answer : Response) × (lines : List LogLine) × (logged r start (recovered again r inner)
          ≡ (answers answer, inner.1, lines ++ request_line r answer start inner.1.now ∷ []))
        × IsEnd again r inner answer lines
  ends r start (answers a, w, lines) = (a, lines, refl, inl (refl, refl))
  ends r start (panics cause written, w, lines) = (
    abort_with again written,
    lines ++ panic_line cause r ∷ [],
    refl,
    inr (cause, written, refl, refl, refl),
  )

  -- However the rest of the chain ends, the client gets a response and the log ends with the one line of
  -- the request, with the status of that response and the request's id. The response is the handler's
  -- where it returns; where it panics it is the recovery's, on top of what was written, and the line
  -- of the panic stands before the request's. What the handler has changed stays changed.
  pub always_answers :
      (next : Chain) (r : HttpRequest) (i : Identity) (w : World)
      → let t : HttpRequest = identified env w r in
        let w' : World = (next t i w).1 in
        (answer : Response) × (lines : List LogLine) × (global env again next r i w
          ≡ (answers answer, w', lines ++ request_line t answer w.now w'.now ∷ []))
        × IsEnd again t (next t i w) answer lines
  unfolding global request_logger recovery
  always_answers next r i w = ends (identified env w r) w.now (next (identified env w r) i w)

  -- Where nothing panics, the server is the one of the routes, with one line in the log.
  pub global-handle :
      (s : Server) (route : Route) (r : HttpRequest) (w : World)
      → let (answer, w') = handle s route r w in
        global s.env again (chain_of (endpoint s route)) r nobody w
        ≡ (answers answer, w', request_line (identified s.env w r) answer w.now w'.now ∷ [])
  unfolding global request_logger recovery handle
  global-handle s route r w = refl

module _ (env : Env) (again : Response → Response → Response)
    (encode : HttpRequest → ℕ → String) where
  audit_chain-panics :
      (action resource : String) (next : Chain) (r : HttpRequest) (i : Identity) (w : World)
      {cause : String} {written : Option Response} {w' : World} {lines : List LogLine}
      → next r i w ≡ (panics cause written, w', lines)
      → audit_chain env encode action resource next r i w ≡ (panics cause written, w', lines)
  unfolding audit_chain
  audit_chain-panics action resource next r i w h = rw h refl

  -- Where an audited handler panics before it has written a response, the client gets a 500, and the
  -- world is what the handler left: its changes, and no row of the audit log.
  pub panic_unaudited :
      (action resource cause : String) (next : Chain) (r : HttpRequest) (i : Identity)
      (w w' : World) (lines : List LogLine)
      → let t : HttpRequest = identified env w r in
        next t i w ≡ (panics cause none, w', lines)
        → global env again (audit_chain env encode action resource next) r i w ≡ (
          answers internal_error,
          w',
          (lines ++ panic_line cause t ∷ []) ++ request_line t internal_error w.now w'.now ∷ [],
        )
  unfolding global request_logger recovery
  panic_unaudited action resource cause next r i w w' lines h =
      rw (audit_chain-panics action resource next (identified env w r) i w h) refl

  -- Where nothing panics, the chain of `Audit` is its handler.
  pub audit_chain-audit :
      (action resource : String) (next : Handler) (r : HttpRequest) (i : Identity) (w : World)
      → let out = audit_chain env encode action resource (chain_of next) r i w in
        let plain = audit env encode action resource next r i w in
        (out.0 ≡ answers plain.0) × (out.1 ≡ plain.1)
  unfolding audit_chain audit
  audit_chain-audit action resource next r i w = (ground arith, ground arith)
