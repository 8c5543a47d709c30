-- ===== src/Names/Sanitize.antt =====
-- What `sanitize_rule_name` accepts is a key that the matcher leaves alone.
use hwprivacy.Common.{◌≡◌, sym, ap, ◌∙◌, ◌≢◌, false, ◌&&◌, some, [], arith}
use hwprivacy.Common.Text.{Text, codes, trim, starts_with, ends_with}
use hwprivacy.Names.{Lowercase, normalize_app_name, sanitize_rule_name, strip_pid}
use hwprivacy.Names.Normalize.{normalize_app_name_idem}

module _ ⦃lc : Lowercase⦄ where
  pub sanitize_rule_name-normalized :
      (app_name key : Text)
      → sanitize_rule_name app_name ≡ some key
      → key ≡ normalize_app_name (strip_pid (trim app_name))
  unfolding sanitize_rule_name
  sanitize_rule_name-normalized app_name key h = ground arith

  -- A stored key is its own lookup key, is not empty, and is no bare annotation in brackets.
  pub sanitize_rule_name_lem :
      (app_name key : Text)
      → sanitize_rule_name app_name ≡ some key
      → (normalize_app_name key ≡ key)
        × (key ≢ [])
        × ((starts_with key (codes "[") && ends_with key b']') ≡ false)
  unfolding sanitize_rule_name
  sanitize_rule_name_lem app_name key h = (fixed, ground arith, ground arith)
    where
      fixed : normalize_app_name key ≡ key
      fixed =
          let e = sanitize_rule_name-normalized app_name key h in
          ap normalize_app_name e ∙ normalize_app_name_idem (strip_pid (trim app_name)) ∙ sym e
