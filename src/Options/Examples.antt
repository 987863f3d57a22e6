-- ===== src/Options/Examples.antt =====
-- Tests of the model of options.go, and its theorem at a concrete input.
use frisbee_go.Prelude.{◌≡◌, refl, none, some, [], ◌∷◌, map}
use frisbee_go.Options.{
  pos, negsuc, with_options, with_keep_alive, with_tls, default_keep_alive, apply_settings, fill_in,
  load_options,
}
use frisbee_go.Options.Last.{sets_keep_alive, sets_tls, setting, load_options_lem}

loads_defaults :
    load_options 7 []
    ≡ record { keep_alive = default_keep_alive; logger = some 7; tls_config = none }
unfolding load_options apply_settings fill_in
loads_defaults = refl

loads_last :
    load_options 7 (with_keep_alive (pos 5) ∷ with_tls (some 2) ∷ with_keep_alive (negsuc 0) ∷ [])
    ≡ record { keep_alive = negsuc 0; logger = some 7; tls_config = some 2 }
unfolding load_options apply_settings fill_in with_keep_alive with_tls
loads_last = refl

load_options_lem_example :
    (load_options 7 (map setting (sets_keep_alive (pos 5) ∷ sets_tls (some 2) ∷ []))
      ≡ record { keep_alive = pos 5; logger = some 7; tls_config = some 2 })
    × (load_options 7 (
          with_options
            (load_options 7 (map setting (sets_keep_alive (pos 5) ∷ sets_tls (some 2) ∷ [])))
          ∷ [])
        ≡ load_options 7 (map setting (sets_keep_alive (pos 5) ∷ sets_tls (some 2) ∷ [])))
load_options_lem_example = load_options_lem 7 (sets_keep_alive (pos 5) ∷ sets_tls (some 2) ∷ [])
