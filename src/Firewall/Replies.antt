-- ===== src/Firewall/Replies.antt =====
-- The responses that the firewall makes itself (antelope-firewall-lib/src/util.rs, and
-- `handle_request` of antelope-firewall-lib/src/firewall_builder.rs).
use antelope_firewall.Prelude.{ℕ, List, [], ◌∷◌, Text, codes}
use antelope_firewall.Firewall.Body.{BodyError, unreadable, not_json}

pub data Field : Type 0 where
  text_field : Text → Text → Field
  number_field : Text → ℕ → Field

-- An answer: one that the firewall makes itself, or the answer of a node.
pub data Reply (Headers : Type 0) : Type 0 where
  own : ℕ → List Field → Text → Reply Headers
  forwarded : ℕ → Headers → Text → Reply Headers

abbrev pub plain_text : Field
plain_text = text_field (codes "Content-Type") (codes "text/plain")

module _ {Headers : Type 0} where
  unfoldable pub get_ratelimit_response : ℕ → Reply Headers
  get_ratelimit_response retry_after =
      own 429 (number_field (codes "Retry-After") retry_after ∷ plain_text ∷ []) []

  unfoldable pub get_blocked_response : Reply Headers
  get_blocked_response = own 403 (plain_text ∷ []) []

  unfoldable pub get_options_response : Reply Headers
  get_options_response = own 200 (text_field (codes "Allow") (codes "OPTIONS, GET, POST") ∷ []) []

  unfoldable pub get_error_response : Text → Reply Headers
  get_error_response body = own 500 (plain_text ∷ []) body

  unfoldable pub too_big_response : Reply Headers
  too_big_response = own 413 [] (codes "Body too big")

abbrev pub body_error_text : BodyError → Text
body_error_text unreadable = codes "Error occurred while parsing request body."
body_error_text not_json = codes "Unable to parse body as JSON."
