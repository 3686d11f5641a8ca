-- ===== src/App/Routing.antt =====
-- Every request that the server can get, by what the router decides.
use flowhand.Base.{
  ◌≡◌, ◌≢◌, true, refl, ◌⊎◌, inl, inr, Bool, String, Option, none, some, [], ◌∷◌, Bool-cases, ◌==◌,
  eq-cases, eq_iff,
}
use flowhand.Failure.{GoError}
use flowhand.Oas.Schemas
use flowhand.Oas.Jx.{Jx}
use flowhand.Oas.Router
use flowhand.Oas.Router.{Routed, serve_route}
use flowhand.Oas.Http.{Request, Header}
use flowhand.Oas.Http
use flowhand.Oas.Request.{Libs}
use flowhand.Oas.Response.Laws.{fresh}
use flowhand.Oas.Server.{
  Handler, not_allowed, serve_http, serve_routed, params_of, options_headers, set_unless_empty,
  set_if_some, NotAllowedParams, create_labels, get_labels,
}
use flowhand.App.{config}
use flowhand.App.Exchange.{Served, IsCreateStatus, IsGetStatus, create-Served, get-Served}

-- What a client gets, and what happens to the state, by the router's decision.
abbrev pub Answered :
    (J : Jx)
    → Libs
    → (GoError → String)
    → {State : Type 0} → Request J.Bytes
    → Routed
    → Http.Exchange J.Bytes × State
    → State
    → Type 0
Answered J libs text r Router.create_task (x, s') s =
    Served J (create_labels J libs (config J text)) IsCreateStatus x
Answered J libs text r (Router.get_task arg) (x, s') s =
    Served J (get_labels J libs (config J text)) IsGetStatus x
Answered J libs text r (Router.not_allowed methods) (x, s') s =
    (s' ≡ s)
    × (x.requests ≡ [])
    × (x.body ≡ [])
    × (((r.method ≡ "OPTIONS") × (header : Header) × (x.sent ≡ some (204, header)))
        ⊎ ((r.method ≢ "OPTIONS")
            × (x.sent ≡ some (405, ("Allow", (params_of methods).allowed_methods) ∷ []))))
Answered J libs text r Router.not_found (x, s') s =
    (s' ≡ s) × (x.requests ≡ []) × (header : Header) × (x.sent ≡ some (404, header))

-- Nothing sent, nothing written, nothing counted.
abbrev IsQuiet : {B : Type 0} → Http.Exchange B → Type 0
IsQuiet x = (x.sent ≡ none) × (x.body ≡ []) × (x.requests ≡ [])

module _ (J : Jx) (libs : Libs) (text : GoError → String) where
  set_unless_empty-IsQuiet :
      (key value : String) (x : Http.Exchange J.Bytes)
      → IsQuiet x
      → IsQuiet (set_unless_empty J libs (config J text) key value x)
  set_unless_empty-IsQuiet key value x q = elim (Bool-cases (value == "")) [
    | inl e ↦ rw e q
    | inr n ↦ rw n q
  ]

  set_if_some-IsQuiet :
      (key : String) (o : Option String) (x : Http.Exchange J.Bytes)
      → IsQuiet x
      → IsQuiet (set_if_some J libs (config J text) key o x)
  set_if_some-IsQuiet key none x q = q
  set_if_some-IsQuiet key (some value) x q = q

  options_headers-IsQuiet :
      (params : NotAllowedParams) (requested : String)
      → IsQuiet (options_headers J libs (config J text) params requested fresh)
  options_headers-IsQuiet params requested =
      set_unless_empty-IsQuiet "Accept-Patch" params.accept_patch _ (
        set_unless_empty-IsQuiet "Accept-Post" params.accept_post _
          (set_if_some-IsQuiet "Access-Control-Allow-Headers" _ _ (refl, refl, refl)))

  refused :
      {State : Type 0} (r : Request J.Bytes) (methods : String) (s : State)
      → Answered J libs text r
          (Router.not_allowed methods)
          (not_allowed J libs (config J text) r (params_of methods) fresh, s)
          s
  unfolding not_allowed Schemas.map_set
  refused r methods s = elim (eq-cases r.method "OPTIONS") [
    | inl e ↦
        let (sent, body, requests) =
          options_headers-IsQuiet (params_of methods) r.requested_method in
        rw ((eq_iff r.method "OPTIONS").1 e) (
          refl,
          requests,
          body,
          inl (
            e,
            (options_headers J libs (config J text) (params_of methods) r.requested_method
                fresh).header,
            rw sent refl,
          ),
        )
    | inr n ↦
        let other : r.method ≢ "OPTIONS" = λ e.
          let t : (r.method == "OPTIONS") ≡ true = (eq_iff r.method "OPTIONS").1 e in cc (n, t) in
        rw n (refl, refl, refl, inr (other, refl))
  ]

  module _ {State : Type 0} (h : Handler State) where
    routed :
        (r : Request J.Bytes) (route : Routed) (escaped : Bool) (s : State)
        → Answered J libs text r route
            (serve_routed J libs (config J text) h (route, escaped) r fresh s)
            s
    unfolding Schemas.map_set
    routed r Router.create_task escaped s = create-Served J libs text h r s
    routed r (Router.get_task arg) escaped s = get-Served J libs text h arg escaped r s
    routed r (Router.not_allowed methods) escaped s = refused r methods s
    routed r Router.not_found escaped s = (refl, refl, _, refl)

-- Whatever is requested on a working connection: the two operations are answered with one JSON
-- document and counted once, under their labels and the status; a wrong method with 405 and the
-- methods that are allowed, or with 204 if it is OPTIONS, and with no body; an unknown path with
-- 404. The last two are not counted and leave the application's state as it was.
pub serve_http-Answered :
    (J : Jx) (libs : Libs) (text : GoError → String) {State : Type 0} (h : Handler State)
    (r : Request J.Bytes) (s : State)
    → Answered J libs text r
        (serve_route libs.urls [] r.method r.url).0
        (serve_http J libs (config J text) h r fresh s)
        s
unfolding serve_http
serve_http-Answered J libs text h r s =
    let (route, escaped) = serve_route libs.urls [] r.method r.url in
    routed J libs text h r route escaped s
