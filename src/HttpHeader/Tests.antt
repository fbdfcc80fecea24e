-- ===== src/HttpHeader/Tests.antt =====
-- A regex that takes the whole text for each pattern, on the two lines "\r\n\r\n".
use thesis_share.Base.{ℕ, ◌≡◌, ◌≤◌, ◌↔◌, true, some, none, Option, [], ◌∷◌, arith, length}
use thesis_share.HttpHeader.{Regex, Text, ok, HeaderInfo, get_response_header}
use thesis_share.HeaderEnd.{end_header}
use thesis_share.HttpHeader.Response.{Accepts, get_response_header-ok}

pub whole_text-in_text :
    (t : Text) (so eo : ℕ)
    → ◌≡◌ {A = Option (ℕ × ℕ)} (some (0, length t)) (some (so, eo))
    → (so ≤ eo) × (eo ≤ length t)
whole_text-in_text t so eo e = ground arith

abbrev pub whole_text : Regex
whole_text = record {
  compiles = λ p. true;
  group = λ p t. some (0, length t);
  in_text = λ p t so eo e. whole_text-in_text t so eo e;
}

abbrev info : HeaderInfo
info = record {
  response_code = 0;
  redirect_url = none;
  http_version = 13 ∷ 10 ∷ 13 ∷ 10 ∷ [];
  content_length = some 0;
}

get_response_header-ok_example :
    (get_response_header whole_text end_header 100 true ≡ ok info)
    ↔ Accepts whole_text end_header 100 true info
get_response_header-ok_example = get_response_header-ok whole_text end_header 100 true info
