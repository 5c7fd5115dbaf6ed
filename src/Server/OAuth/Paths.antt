-- ===== src/Server/OAuth/Paths.antt =====
-- src/server/oauth.rs: where a browser can be sent.
use isabelle_core.Prelude.{
  Bool-cases, nat_Eq, string_Eq, starts_with, contains_text, any_char, is_control, trim, String,
  ◌≡◌, refl, inl, inr, true, false, ◌&&◌, not, arith,
}
use isabelle_core.Server.OAuth.{safe_next}

-- A path on this site: no address with its scheme left off, and nothing that a browser reads as one.
pub record IsLocal (p : String) : Type 0 where
  pub is_path : starts_with p "/" ≡ true
  pub is_not_host : starts_with p "//" ≡ false
  pub has_no_backslash : contains_text p "\\" ≡ false
  pub has_no_control : any_char is_control p ≡ false

-- Whatever a caller asks to be sent back to, what is kept of it is a path on this site.
pub safe_next-IsLocal : (next : String) → IsLocal (safe_next next)
unfolding safe_next
safe_next-IsLocal next =
    elim (Bool-cases (
      starts_with (trim next) "/"
      && not (starts_with (trim next) "//")
      && not (starts_with (trim next) "/\\")
      && not (contains_text (trim next) "\\")
      && not (any_char is_control (trim next)))) [
        | inl ok ↦ rw ok (record {
          is_path = ground arith;
          is_not_host = ground arith;
          has_no_backslash = ground arith;
          has_no_control = ground arith;
        })
        | inr bad ↦ rw bad (
            unfold contains_text any_char is_control in
            record {
              is_path = refl;
              is_not_host = refl;
              has_no_backslash = refl;
              has_no_control = refl;
            })
      ]
