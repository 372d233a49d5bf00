-- ===== src/Control/Paths.antt =====
-- internal/workforce/control: the paths and the hexadecimal digests of the documents. The functions
-- of `path/filepath` and of `os` on paths are parameters.
use agents_coworkers.Prelude.{
  ℕ, Bool, false, ◌&&◌, ◌||◌, not, String, ◌==◌, length, all, leb, nat_eq,
}
use agents_coworkers.Prelude.Text.{codes, is_blank}
use agents_coworkers.Recovery.Errors.{Result, ok, err}

pub record Host : Type 0 where
  pub is_abs : String → Bool
  pub clean : String → String
  pub abs : String → Result String
  -- `os.Stat` of both succeeds, and `os.SameFile`
  pub same_file : String → String → Bool
  pub is_windows : Bool
  pub equal_fold : String → String → Bool

abbrev pub is_hex : ℕ → Bool
is_hex c = (leb 48 c && leb c 57) || (leb 97 c && leb c 102) || (leb 65 c && leb c 70)

-- `is64Hex`
unfoldable pub is_64_hex : String → Bool
is_64_hex s = nat_eq (length (codes s)) 64 && all is_hex (codes s)

-- `is40Hex`
unfoldable pub is_40_hex : String → Bool
is_40_hex s = nat_eq (length (codes s)) 40 && all is_hex (codes s)

module _ (h : Host) where
  -- `isCleanAbsPath`
  unfoldable pub is_clean_abs_path : String → Bool
  is_clean_abs_path p = not (is_blank p) && h.is_abs p && h.clean p == p

  abbrev pub same_abs : Result String → Result String → Bool
  same_abs (ok p) (ok q) = p == q || (h.is_windows && h.equal_fold p q)
  same_abs (ok p) (err x) = false
  same_abs (err x) q = false

  -- `arePathsSameOrEquivalent`
  unfoldable pub are_paths_same_or_equivalent : String → String → Bool
  are_paths_same_or_equivalent p q =
      h.clean p == h.clean q
      || h.same_file (h.clean p) (h.clean q)
      || same_abs (h.abs (h.clean p)) (h.abs (h.clean q))
