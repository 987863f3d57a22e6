-- ===== src/Options.antt =====
-- options.go: the options of servers and clients, and how the functions that set them are combined.
-- Loggers and TLS configurations are numbered, and `none` is nil; the logger that logs nothing is
-- `noop`.
pub mod Last
mod Examples
use frisbee_go.Prelude.{
  ℕ, zero, suc, Bool, true, false, Option, none, some, List, [], ◌∷◌, if◌then◌else◌,
}

-- A `time.Duration`, in nanoseconds.
pub data ℤ : Type 0 where
  pos : ℕ → ℤ
  negsuc : ℕ → ℤ

pub record Options : Type 0 where
  pub keep_alive : ℤ
  pub logger : Option ℕ
  pub tls_config : Option ℕ

-- `Option` of options.go: a function that changes the options.
abbrev pub Setting : Type 0
Setting = Options → Options

unfoldable pub with_options : Options → Setting
with_options options opts = options

unfoldable pub with_keep_alive : ℤ → Setting
with_keep_alive keep_alive opts = record opts { keep_alive = keep_alive }

unfoldable pub with_logger : Option ℕ → Setting
with_logger logger opts = record opts { logger = logger }

unfoldable pub with_tls : Option ℕ → Setting
with_tls tls_config opts = record opts { tls_config = tls_config }

abbrev pub is_zero : ℤ → Bool
is_zero (pos zero) = true
is_zero _ = false

-- Three minutes.
abbrev pub default_keep_alive : ℤ
default_keep_alive = pos 180000000000

-- `new(Options)`.
abbrev pub zero_options : Options
zero_options = record { keep_alive = pos 0; logger = none; tls_config = none }

-- The loop over the options.
unfoldable pub apply_settings : List Setting → Options → Options
apply_settings [] opts = opts
apply_settings (setting ∷ rest) opts = apply_settings rest (setting opts)

-- The defaults for what has not been set.
unfoldable pub fill_in : ℕ → Options → Options
fill_in noop opts = record opts {
  logger = elim opts.logger [ none ↦ some noop | some l ↦ some l ];
  keep_alive = if is_zero opts.keep_alive then default_keep_alive else opts.keep_alive;
}

-- `loadOptions`.
unfoldable pub load_options : ℕ → List Setting → Options
load_options noop settings = fill_in noop (apply_settings settings zero_options)
