-- ===== src/Sample.antt =====
-- Sample surroundings, a token service and tables, for the examples of every part.
use youthpreneur_be.Base.{
  ℕ, ◌+◌, ◌*◌, ◌%◌, String, true, false, none, some, [], ◌∷◌, str_eq, if◌then◌else◌,
}
use youthpreneur_be.Errors.{ok, err, external}
use youthpreneur_be.Entity.{
  User, Role, RefreshSession, TrainingCatalog, TrainingEnrollment, EnrollmentStatus, ProcessStatus,
}
use youthpreneur_be.Entity.Business.{Enterprise, AuditRow, AuditAction}
use youthpreneur_be.Db.{World, Env, nanoseconds}
use youthpreneur_be.Auth.{AuthUsecase, TokenService}

-- Nothing fails, and the clock stands at second 1000.
abbrev pub env : Env
env = record {
  fails = λ _. false;
  clock = λ _. 1000 * nanoseconds;
  random_below = λ k m. k % m;
  random_byte = λ k i. (k + i) % 256;
  to_lower = λ s. s;
  to_upper = λ s. s;
  ilike = λ _ _. true;
  decimal = λ t. ok t;
  parse_url = λ _. some ("https", "example.org");
  parse_date = λ _. some 20000;
  password_matches = λ hash password. str_eq hash password;
  password_hash = λ password _. ok password;
}

-- Refresh tokens are their own hashes, and "new" is the one that is issued and sealed.
abbrev pub tokens : TokenService
tokens = record {
  issue_access = λ _ _. ok "access";
  generate_refresh = λ _. ok "new";
  hash_refresh = λ raw. raw;
  encrypt_refresh = λ raw _. if str_eq raw "new" then ok (1 ∷ []) else err (external "seal");
  decrypt_refresh = λ _. ok "new";
}

abbrev pub usecase : AuthUsecase
usecase = record {
  env = env;
  tokens = tokens;
  access_ttl = 900 * nanoseconds;
  refresh_ttl = 4000 * nanoseconds;
}

abbrev pub ann : User
ann = record {
  id = 1;
  public_id = "YTP-000001";
  email = "ann@example.org";
  password = "password";
  role = Role.member;
  is_active = true;
  created_at = 10;
  updated_at = 10;
  deleted_at = none;
  profile = none;
}

abbrev pub live_session : RefreshSession
live_session = record {
  id = 7;
  user_id = 1;
  family_id = "family";
  token_hash = "old";
  expires_at = 5000;
  created_at = 900;
  revoked_at = none;
  revocation_reason = none;
  grace_until = none;
  replacement_token_enc = [];
  replaced_by_hash = none;
}

abbrev pub course : TrainingCatalog
course = record {
  id = 3;
  public_id = "TRN-000003";
  title = "course";
  description = "";
  pic_phone = "";
  category = none;
  max_slots = some 2;
  training_status = some ProcessStatus.planned;
  link = "";
  address = "";
  thumbnail = "";
  start_date = none;
  end_date = none;
  mentor = "";
  registered_count = 1;
  created_at = 10;
  updated_at = 10;
  deleted_at = none;
}

abbrev pub enrollment : ℕ → String → ℕ → EnrollmentStatus → TrainingEnrollment
enrollment id p user s = record {
  id = id;
  public_id = p;
  user_id = user;
  training_catalog_id = 3;
  register_date = none;
  status = s;
  created_at = 20;
  updated_at = 20;
  deleted_at = none;
}

abbrev pub shop : Enterprise
shop = record {
  id = 4;
  public_id = "TPN-000004";
  user_id = 1;
  enterprise_name = "SHOP";
  description = "";
  address = "";
  focus_commodity = "";
  dispora_support = "";
  business_sector = "Kuliner";
  legal_status = "";
  business_digitization = "";
  intervention_needs = "";
  training_status = "";
  mentoring_status = "";
  capital_access = "";
  partnership = "";
  initial_turnover = "0.00";
  current_turnover = "0.00";
  district = "";
  status = "active";
  created_at = 10;
  updated_at = 10;
  deleted_at = none;
}

-- The event of the creation of the shop
abbrev pub shop_event : AuditRow
shop_event = record {
  id = 9;
  event = record {
    enterprise_id = 4;
    actor_user_id = 1;
    action = AuditAction.create;
    changed_fields =
        ("enterprise_name", some "SHOP")
        ∷ ("business_sector", some "Kuliner")
        ∷ ("initial_turnover", some "0.00")
        ∷ ("current_turnover", some "0.00")
        ∷ ("status", some "active")
        ∷ [];
    created_at = 10;
  };
}

-- Ann waits for a decision, and the enrollment of user 2 is accepted.
abbrev pub world : World
world = record {
  db = record {
    users = ann ∷ [];
    refresh_sessions = live_session ∷ [];
    training_catalog = course ∷ [];
    training_enrollments =
        enrollment 1 "ENR-000001" 1 EnrollmentStatus.pending
        ∷ enrollment 2 "ENR-000002" 2 EnrollmentStatus.accepted
        ∷ [];
    enterprises = shop ∷ [];
    enterprise_audit_events = shop_event ∷ [];
  };
  serial = 50;
  ticks = 0;
}
