-- ===== src/Core/Resource.antt =====
-- packages/core/src/http.ts: `resourceDescriptorFromRequest`, on what it reads of a request.
use fiber_paid_http.Prelude.{
  ℕ, ◌-◌, Text, text, ◌==◌, ◌||◌, ◌++◌, ◌∷◌, [], Option, none, some, map, if◌then◌else◌,
}
use fiber_paid_http.Core.Types.{ResourceDescriptor}
use fiber_paid_http.Core.Runtime.{Runtime}
use fiber_paid_http.Core.Schemas.{is_lower_alpha}

pub record HttpRequest : Type 0 where
  pub method : Text
  pub url : Text
  pub content_type : Option Text
  pub authorization : Option Text
  pub body : Text

-- `toUpperCase` on ASCII
unfoldable pub upper : ℕ → ℕ
upper c = if is_lower_alpha c then c - 32 else c

module _ (rt : Runtime) where
  unfoldable pub resource_descriptor_from_request : HttpRequest → ResourceDescriptor
  unfolding upper
  resource_descriptor_from_request request =
      let method = map upper request.method in
      if method == text "GET" || method == text "HEAD"
      then record {
        method = method;
        url = request.url;
        digest = none;
        content_type = request.content_type;
      }
      else record {
        method = method;
        url = request.url;
        digest = some (text "sha-256=:" ++ (rt.sha256_base64 request.body ++ b':' ∷ []));
        content_type = request.content_type;
      }
