-- ===== src/Runs/PatchPath/Tests.antt =====
-- `normalizePatchPath` of internal/agentruns/store.go on concrete paths.
use ia_cstudio.Prelude.{◌≡◌, refl, All, ok, err}
use ia_cstudio.Text.Trim.{trim_space, contains}
use ia_cstudio.Runs.Types.{Error}
use ia_cstudio.Runs.PatchPath.{normalize_patch_path, split_slash, clean}
use ia_cstudio.Runs.PatchPath.Safe.{IsEntry, normalize_patch_path-IsEntry}

keeps_inside : normalize_patch_path " modules//net/./main.tf " ≡ ok "modules/net/main.tf"
unfolding normalize_patch_path clean trim_space contains
keeps_inside = refl

refuses_parent : normalize_patch_path "a/../b" ≡ err Error.unsafe_patch_path
unfolding normalize_patch_path clean trim_space contains
refuses_parent = refl

-- A drive prefix behind "./" passes the test that comes before the cleaning.
drive_after_clean : normalize_patch_path "./C:/x" ≡ ok "C:/x"
unfolding normalize_patch_path clean trim_space contains
drive_after_clean = refl

normalize_patch_path-IsEntry_example : All IsEntry (split_slash "modules/net/main.tf")
normalize_patch_path-IsEntry_example =
    normalize_patch_path-IsEntry " modules//net/./main.tf " "modules/net/main.tf" keeps_inside
