-- ===== src/Rpc/Starting.antt =====
-- rpc_server.go, `StartRPCServer` and `clearHydfsFolder`: what a node does before its loops run.
use hydfs.Prelude.{
  ℕ, Text, Option, none, some, List, [], ◌∷◌, Bool, true, false, Dict, keys, remove, if◌then◌else◌,
}
use hydfs.Config.{Config}
use hydfs.Server.{Server}
use hydfs.Rpc.{JoinResponse, notify_introducer}

-- What `os.Stat` and `os.ReadDir` find under the name of the directory.
pub data Directory : Type 0 where
  absent no_stat no_directory unreadable : Directory
  holds : Dict Text → Directory

remove_entries : (Text → Bool) → List Text → Dict Text → Dict Text
unfolding remove
remove_entries removes [] disk = disk
remove_entries removes (name ∷ names) disk =
    remove_entries removes names (if removes name then remove name disk else disk)

-- `clearHydfsFolder`; `makes` says that `os.MkdirAll` succeeds, `removes` that `os.Remove` does for
-- a name. False is an error.
unfoldable pub clear_hydfs_folder : Bool → (Text → Bool) → Directory → Directory × Bool
unfolding remove_entries
clear_hydfs_folder makes removes absent = if makes then (holds [], true) else (absent, false)
clear_hydfs_folder makes removes no_stat = (no_stat, false)
clear_hydfs_folder makes removes no_directory = (no_directory, false)
clear_hydfs_folder makes removes unreadable = (unreadable, false)
clear_hydfs_folder makes removes (holds disk) =
    (holds (remove_entries removes (keys disk) disk), true)

abbrev started : Directory → Option (Config × Server) → Option (Config × Server × Directory)
started dir none = none
started dir (some (c, s)) = some (c, s, dir)

-- `StartRPCServer` up to its loops, with the answer of the introducer; `listens` says that the
-- address resolves and can be listened on. A directory that cannot be cleared is no error.
unfoldable pub start_rpc_server :
    Bool
    → Bool
    → (Text → Bool)
    → ℕ
    → Option JoinResponse
    → Config
    → Server
    → Directory
    → Option (Config × Server × Directory)
unfolding notify_introducer clear_hydfs_folder
start_rpc_server listens makes removes now answer c s dir =
    let cleared = (clear_hydfs_folder makes removes dir).0 in
    if listens
    then (if s.is_introducer
        then some (c, s, cleared)
        else started cleared (notify_introducer now answer c s))
    else none
