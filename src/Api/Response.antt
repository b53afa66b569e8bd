-- ===== src/Api/Response.antt =====
-- What writeError and writeJSON of internal/api and internal/admin/routes answer. The texts of the
-- error messages are left out; status and code are not.
use matfix.Shared.{ℕ, String}

pub data Response {ℓ} (A : Type ℓ) : Type ℓ where
  failure : (status : ℕ) → (code : String) → Response A
  success : (status : ℕ) → A → Response A

-- Early returns: `f` goes on with what the checks before it have found.
abbrev pub unless_failure {ℓ κ} :
    {A : Type ℓ} {B : Type κ} → Response A → (A → Response B) → Response B
unless_failure (failure status code) f = failure status code
unless_failure (success status a) f = f a
