-- ===== src/Service/Paths.antt =====
-- internal/mds/service_mutation.go: the paths below a directory that changes its own.
use astra_storage.Base.{String, Bool, true, not, ◌==◌, if◌then◌else◌}
use astra_storage.Base.Text.{◌++◌, has_prefix, trim_prefix, trim_right_slash}

unfoldable pub path_within_prefix : String → String → Bool
path_within_prefix path prefix =
    if path == prefix
    then true
    else if prefix == "/"
    then has_prefix path "/"
    else has_prefix path (trim_right_slash prefix ++ "/")

abbrev pub slash_if_empty : String → String
slash_if_empty s = if s == "" then "/" else s

unfoldable pub replace_path_prefix : String → String → String → String
replace_path_prefix path old_prefix new_prefix =
    let trimmed = slash_if_empty (trim_right_slash old_prefix) in
    if path == old_prefix
    then new_prefix
    else if not (has_prefix path (trimmed ++ "/"))
    then path
    else trim_right_slash new_prefix ++ trim_prefix path trimmed
