-- ===== src/Middleware/Schedule.antt =====
-- Many requests at once: a schedule says which request goes on next, and what it awaited. The
-- handler's calls are recorded.
use fiber_paid_http.Prelude.{ℕ, zero, suc, Text, List, [], ◌∷◌, ◌++◌}
use fiber_paid_http.Core.Runtime.{Runtime}
use fiber_paid_http.Core.Resource.{HttpRequest}
use fiber_paid_http.Storage.{Database}
use fiber_paid_http.Middleware.Config.{Gateway, PaidRouteConfig}
use fiber_paid_http.Middleware.Verify.{VerifiedRedemption}
use fiber_paid_http.Middleware.Protect.{Phase, arrived, redeemed, Answer, advance}

pub record World : Type 0 where
  pub db : Database
  pub phases : List Phase
  pub served : List VerifiedRedemption

pub data Event : Type 0 where
  -- a request arrives
  accepts : HttpRequest → Event
  -- the request with this number goes on
  resumes : ℕ → Answer → Event

-- A gateway that was just started on this database.
abbrev pub opened : Database → World
opened db = record { db = db; phases = []; served = [] }

abbrev pub served_challenge : VerifiedRedemption → Text
served_challenge v = v.challenge.id

abbrev pub served_payment : VerifiedRedemption → Text
served_payment v = v.payment_hash

abbrev pub served_credential : VerifiedRedemption → Text
served_credential v = v.credential_hash

-- the call of `route.handler` that the step makes
abbrev pub called : Phase → List VerifiedRedemption
called (redeemed request v now) = v ∷ []
called _ = []

module _ (rt : Runtime) (gateway : Gateway) (route : PaidRouteConfig) where
  unfoldable pub resume : ℕ → Answer → World → List Phase → World
  resume i a w [] = w
  resume zero a w (p ∷ phases) =
      let (db', p') = advance rt gateway route a w.db p in
      record { db = db'; phases = p' ∷ phases; served = called p ++ w.served }
  resume (suc i) a w (p ∷ phases) =
      let w' = resume i a (record w { phases = phases }) phases in
      record w' { phases = p ∷ w'.phases }

  unfoldable pub handle : World → Event → World
  handle w (accepts request) = record w { phases = arrived request ∷ w.phases }
  handle w (resumes i a) = resume i a w w.phases

  unfoldable pub serve : World → List Event → World
  serve w [] = w
  serve w (e ∷ events) = serve (handle w e) events
