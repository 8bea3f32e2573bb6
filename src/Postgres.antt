-- ===== src/Postgres.antt =====
-- PostgreSQL as far as the repositories see it: ids of type `uuid` are 128-bit values, and the
-- repositories write and read them as texts. The database is no code of the repository, so its
-- two conversions are parameters, with the documented law that a printed id reads back.
use chattea_be.Prelude.{ℕ, ◌≡◌}
use chattea_be.Prelude.Text.{Text}

pub record UuidText : Type 0 where
  -- the value of a text that the type accepts, in either case of its letters
  pub uuid_in : Text → ℕ
  -- the text that a query returns
  pub uuid_out : ℕ → Text
  pub uuid_in-uuid_out : (n : ℕ) → uuid_in (uuid_out n) ≡ n
