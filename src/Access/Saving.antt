-- ===== src/Access/Saving.antt =====
-- SaveFor, LoadFor and SplitLegacy of internal/config/config.go together.
use whatsapp_connect_mcp.Prelude.{String, Bool, true, false, ◌≡◌, refl, ok, Bool-cases, inl, inr}
use whatsapp_connect_mcp.Access.Config.{
  Config, File, missing, unreadable, malformed, holds, Files, load_for, save_for, split_legacy,
  fill_defaults, overlay, read_file, nothing_owned,
}

-- Settings that were saved are the settings that the next load gives, its defaults filled in:
-- with and without an account directory, whatever stood in the files before.
pub load_for-save_for :
    (outbox : String) (paired : Bool) (c : Config) (f : Files)
    → load_for outbox paired (save_for true true paired c f).1 ≡ ok (fill_defaults outbox c)
unfolding load_for save_for overlay read_file
load_for-save_for outbox true c f = refl
load_for-save_for outbox false c f = refl

split_files :
    (outbox : String) (a m paired : Bool) (machine account : File)
    → load_for outbox paired
        (split_legacy a m paired (record { machine = machine; account = account })).1
      ≡ load_for outbox paired (record { machine = machine; account = account })
unfolding load_for save_for overlay read_file split_legacy fill_defaults
split_files outbox a m false x y = refl
split_files outbox a m true x unreadable = refl
split_files outbox a m true x malformed = refl
split_files outbox a m true x (holds c) = refl
split_files outbox a m true missing missing = refl
split_files outbox a m true unreadable missing = refl
split_files outbox a m true malformed missing = refl
split_files outbox true true true (holds c) missing = elim (Bool-cases (nothing_owned c)) [
  | inl e ↦ rw e refl
  | inr e ↦ rw e refl
]
split_files outbox true false true (holds c) missing = elim (Bool-cases (nothing_owned c)) [
  | inl e ↦ rw e refl
  | inr e ↦ rw e refl
]
split_files outbox false m true (holds c) missing = elim (Bool-cases (nothing_owned c)) [
  | inl e ↦ rw e refl
  | inr e ↦ rw e refl
]

-- Splitting an old config.json never changes the settings that a load gives, not even when one of
-- the two writes fails.
pub split_legacy_keeps_settings :
    (outbox : String) (account_ok machine_ok paired : Bool) (f : Files)
    → load_for outbox paired (split_legacy account_ok machine_ok paired f).1
      ≡ load_for outbox paired f
split_legacy_keeps_settings outbox account_ok machine_ok paired f =
    split_files outbox account_ok machine_ok paired f.machine f.account
