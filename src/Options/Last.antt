-- ===== src/Options/Last.antt =====
-- The options that options.go loads, each on its own.
use frisbee_go.Prelude.{
  ℕ, zero, suc, ap, ◌∙◌, ◌≡◌, refl, Option, none, some, List, [], ◌∷◌, map, get_or, if◌then◌else◌,
}
use frisbee_go.Options.{
  ℤ, pos, negsuc, Options, Setting, with_options, with_keep_alive, with_logger, with_tls, is_zero,
  default_keep_alive, zero_options, apply_settings, fill_in, load_options,
}

-- A call of one of the functions that options.go has.
pub data Choice : Type 0 where
  sets_options : Options → Choice
  sets_keep_alive : ℤ → Choice
  sets_logger : Option ℕ → Choice
  sets_tls : Option ℕ → Choice

abbrev pub setting : Choice → Setting
setting (sets_options o) = with_options o
setting (sets_keep_alive t) = with_keep_alive t
setting (sets_logger l) = with_logger l
setting (sets_tls t) = with_tls t

-- What a call says of one of the options, if it says something.
abbrev pub says_keep_alive : Choice → Option ℤ
says_keep_alive (sets_options o) = some o.keep_alive
says_keep_alive (sets_keep_alive t) = some t
says_keep_alive _ = none

abbrev pub says_logger : Choice → Option (Option ℕ)
says_logger (sets_options o) = some o.logger
says_logger (sets_logger l) = some l
says_logger _ = none

abbrev pub says_tls : Choice → Option (Option ℕ)
says_tls (sets_options o) = some o.tls_config
says_tls (sets_tls t) = some t
says_tls _ = none

module _ {A B : Type 0} where
  -- The last thing that is said, or `a`.
  abbrev pub last_said : (B → Option A) → A → List B → A
  last_said says a [] = a
  last_said says a (c ∷ cs) = last_said says (get_or (says c) a) cs

-- The options, each as the last call that says something of it has it.
abbrev pub chosen : Options → List Choice → Options
chosen o cs = record {
  keep_alive = last_said says_keep_alive o.keep_alive cs;
  logger = last_said says_logger o.logger cs;
  tls_config = last_said says_tls o.tls_config cs;
}

apply_settings_lem :
    (o : Options) (cs : List Choice) → apply_settings (map setting cs) o ≡ chosen o cs
unfolding apply_settings with_options with_keep_alive with_logger with_tls
apply_settings_lem o [] = refl
apply_settings_lem o (sets_options a ∷ cs) = apply_settings_lem a cs
apply_settings_lem o (sets_keep_alive a ∷ cs) = apply_settings_lem (record o { keep_alive = a }) cs
apply_settings_lem o (sets_logger a ∷ cs) = apply_settings_lem (record o { logger = a }) cs
apply_settings_lem o (sets_tls a ∷ cs) = apply_settings_lem (record o { tls_config = a }) cs

fill_in-fill_in :
    (noop : ℕ) (t : ℤ) (l c : Option ℕ)
    → fill_in noop (fill_in noop (record { keep_alive = t; logger = l; tls_config = c }))
      ≡ fill_in noop (record { keep_alive = t; logger = l; tls_config = c })
unfolding fill_in
fill_in-fill_in noop (pos zero) none c = refl
fill_in-fill_in noop (pos zero) (some l) c = refl
fill_in-fill_in noop (pos (suc n)) none c = refl
fill_in-fill_in noop (pos (suc n)) (some l) c = refl
fill_in-fill_in noop (negsuc n) none c = refl
fill_in-fill_in noop (negsuc n) (some l) c = refl

filled_in :
    (noop : ℕ) (t : ℤ) (l c : Option ℕ)
    → fill_in noop (record { keep_alive = t; logger = l; tls_config = c }) ≡ record {
      keep_alive = if is_zero t then default_keep_alive else t;
      logger = some (get_or l noop);
      tls_config = c;
    }
unfolding fill_in
filled_in noop t none c = refl
filled_in noop t (some l) c = refl

-- Whatever functions of options.go a program lists, in whatever order, each of the three options
-- that `loadOptions` returns is as the last of those that set it has it, `WithOptions` setting all
-- three; a logger that is nil then is the one that logs nothing, and a keep-alive of 0 is three
-- minutes. Options that were loaded once and are passed on by `WithOptions` are loaded unchanged.
pub load_options_lem :
    (noop : ℕ) (cs : List Choice)
    → (load_options noop (map setting cs) ≡ record {
      keep_alive =
          let t = last_said says_keep_alive (pos 0) cs in
          if is_zero t then default_keep_alive else t;
      logger = some (get_or (last_said says_logger none cs) noop);
      tls_config = last_said says_tls none cs;
    })
      × (load_options noop (with_options (load_options noop (map setting cs)) ∷ [])
          ≡ load_options noop (map setting cs))
unfolding load_options apply_settings with_options
load_options_lem noop cs = (
  ap (fill_in noop) (apply_settings_lem zero_options cs)
      ∙ (let o = chosen zero_options cs in filled_in noop o.keep_alive o.logger o.tls_config),
  (let o = apply_settings (map setting cs) zero_options in
      fill_in-fill_in noop o.keep_alive o.logger o.tls_config),
)
