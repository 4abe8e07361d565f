-- ===== src/World.antt =====
-- What the control plane and a gateway agent share: the database, the files of the control directory
-- and of the gateway's host, and the commands that were run there.
use pq_migration_gateway.Prelude.{ℕ, Bool, String, List, Option}
use pq_migration_gateway.Result.{Error}
use pq_migration_gateway.Json.{Json}
use pq_migration_gateway.Store.Tables.{Store}

-- A JSON file: missing, not JSON text, or with a content.
pub data File (A : Type 0) : Type 0 where
  missing : File A
  unreadable : File A
  holds : A → File A

-- observed.json
pub record Observed : Type 0 where
  pub agent_id : String
  pub version : Option ℕ
  pub failed_version : Option ℕ
  pub status : String
  pub error : Option Error
  pub checksum : Option String
  pub observed_at : ℕ

-- desired.json
pub record Desired : Type 0 where
  pub version : ℕ
  pub rendered_checksum : String
  pub requested_at : ℕ
  pub operator : String

-- releases/<version>/, whether it is there, with services.json, manifest.json and nginx.conf
pub record Release : Type 0 where
  pub exists : Bool
  pub services_json : Option Json
  pub manifest : File Json
  pub nginx_conf : Option String

-- A command, with the content of the configuration file that it names.
pub data Command : Type 0 where
  nginx_test nginx_reload : Option String → Command
  health_check : Command

-- `active`, `previous` and `temporary` are the configuration file of the gateway and its siblings
-- `.previous` and `.candidate`. `commands` has the newest command first.
pub record World : Type 0 where
  pub store : Store
  pub releases : ℕ → Release
  pub desired : File Desired
  pub observed : File Observed
  pub active : Option String
  pub previous : Option String
  pub temporary : Option String
  pub commands : List Command
  pub now : ℕ

-- The host: the outcome of a command, with `none` for the exit code 0, may depend on all commands
-- before it; so may the answer of the status page. `sha256` and `hmac` are those of the standard
-- library, in hexadecimal; `digest m` and `hmac key m` are those of the JSON text of `m` with sorted
-- keys. `python_str` is `str` of a JSON value that is not a text.
pub record Host : Type 0 where
  pub outcome : List Command → Option Error
  pub active_connections : List Command → Option ℕ
  pub sha256 : String → String
  pub digest : Json → String
  pub hmac : String → Json → String
  pub python_str : Json → String
