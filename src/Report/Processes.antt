-- ===== src/Report/Processes.antt =====
-- The agent and the processes of a runtime report: the first part of `normalize_runtime_report` in
-- manager/runtime_ingest.py.
use pq_migration_gateway.Prelude.{
  ℕ, String, true, false, not, ◌||◌, List, [], ◌∷◌, Option, map, ◌==◌, if◌then◌else◌, ltb, take,
  keep, length,
}
use pq_migration_gateway.Prelude.Int.{ℤ, pos, negsuc, leb_ℤ}
use pq_migration_gateway.Result.{Result, ok, err, value_error, type_error, ◌>>=◌}
use pq_migration_gateway.Json.{
  Json, Items, Fields, null, bool, num, real, str, arr, obj, elements, get, get_or, truthy,
}
use pq_migration_gateway.Store.Inventory.{items_of, sorted_set}
use pq_migration_gateway.Store.Releases.{or_raise}
use pq_migration_gateway.Report.Types.{RuntimeAgent, Container, RuntimeProcess}
use pq_migration_gateway.Report.Texts.{limited_text, int_text, stable_id}
use pq_migration_gateway.Report.Bounded.{bounded_json}

-- What the code takes from Python's library: `str` of a value that is not a text, `int` of a text
-- and of a float, the hexadecimal digest, the UTF-8 size of `json.dumps` and the time as a text.
pub record Host : Type 0 where
  pub python_str : Json → String
  pub int_of_text : String → Option ℤ
  pub int_of_real : String → Option ℤ
  pub sha256 : String → String
  pub dumped_size : Json → ℕ
  pub now : String

-- An array of at most `most` entries, or the `ValueError`.
unfoldable pub bounded_array : String → ℕ → Json → Result (List Json)
bounded_array field most (arr items) =
    if ltb most (length (elements items)) then err (value_error field) else ok (elements items)
bounded_array field most _ = err (value_error field)

module _ (host : Host) where
  -- `int(v)`
  unfoldable pub int_of : Json → Result ℤ
  int_of (num n) = ok n
  int_of (bool true) = ok (pos 1)
  int_of (bool false) = ok (pos 0)
  int_of (str s) = or_raise (value_error "int") (host.int_of_text s)
  int_of (real r) = or_raise (value_error "int") (host.int_of_real r)
  int_of null = err (type_error "int")
  int_of (arr _) = err (type_error "int")
  int_of (obj _) = err (type_error "int")

  abbrev pub limited : ℕ → Json → String
  limited limit v = limited_text host.python_str limit v

  -- `v[:n]` for what is iterated over; a `dict` has no slices.
  abbrev slice : ℕ → Json → Result (List Json)
  slice n (obj _) = err (type_error "slice")
  slice n v = do items ← items_of v; ok (take n items)

  -- `sorted({_text(item, limit) for item in v[:n] if item})`
  unfoldable pub text_set : ℕ → ℕ → Json → Result (List String)
  unfolding items_of sorted_set
  text_set n limit v = do
    items ← slice n v
    ok (sorted_set (map (limited limit) (keep truthy items)))

  -- `agent = {…}`
  unfoldable pub runtime_agent : String → Fields → Result RuntimeAgent
  unfolding text_set
  runtime_agent id raw = do
    capabilities ← text_set 64 64 (get_or "capabilities" (arr Items.nil) raw)
    ok (record {
      id = id;
      hostname = limited 255 (get "hostname" raw);
      version = limited 64 (get "version" raw);
      boot_id = limited 128 (get "boot_id" raw);
      mode = limited 32 (get_or "mode" (str "host") raw);
      capabilities = capabilities;
      metadata = bounded_json (get_or "metadata" (obj Fields.end) raw);
    })

  -- `raw.get("container", {})` if it is a `dict`, and otherwise `{}`
  abbrev fields_or_empty : Json → Fields
  fields_or_empty (obj fs) = fs
  fields_or_empty _ = Fields.end

  unfoldable pub container : Fields → Container
  container fs = record {
    id = limited 128 (get "id" fs);
    runtime = limited 64 (get "runtime" fs);
    pod_uid = limited 128 (get "pod_uid" fs);
    cgroup = limited 4096 (get "cgroup" fs);
  }

  -- `container_id or _text(container.get("pod_uid"), 128) or "host"`
  unfoldable pub workload_key : Container → String
  workload_key c = if c.id == "" then (if c.pod_uid == "" then "host" else c.pod_uid) else c.id

  unfoldable pub process_id : RuntimeAgent → ℤ → ℤ → String
  process_id agent pid ticks =
      stable_id host.sha256 "proc" (agent.id ∷ agent.boot_id ∷ int_text pid ∷ int_text ticks ∷ [])

  unfoldable pub workload_id : RuntimeAgent → Container → String → String
  unfolding workload_key
  workload_id agent c executable =
      stable_id host.sha256 "runtime-asset" (agent.id ∷ workload_key c ∷ executable ∷ [])

  unfoldable pub process_item : RuntimeAgent → ℤ → ℤ → List String → ℤ → Fields → RuntimeProcess
  unfolding container process_id workload_id
  process_item agent pid ticks libraries uid raw =
      let c = container (fields_or_empty (get_or "container" (obj Fields.end) raw)) in
      let executable = limited 4096 (get "executable" raw) in
      record {
        process_instance_id = process_id agent pid ticks;
        workload_asset_id = workload_id agent c executable;
        pid = pid;
        start_time_ticks = ticks;
        executable = executable;
        command = limited 1000 (get "command" raw);
        uid = uid;
        mapped_crypto_libraries = libraries;
        container = c;
        namespaces = bounded_json (get_or "namespaces" (obj Fields.end) raw);
        metadata = bounded_json (get_or "metadata" (obj Fields.end) raw);
      }

  -- The part of the loop's body behind the two numbers: a process that cannot be one is skipped.
  unfoldable pub add_process :
      RuntimeAgent → ℤ → ℤ → Fields → Result (List RuntimeProcess) → Result (List RuntimeProcess)
  unfolding process_item text_set
  add_process agent pid ticks raw rest =
      if not (leb_ℤ (pos 1) pid) || not (leb_ℤ (pos 0) ticks) then rest else do
        libraries ← text_set 512 4096 (get_or "mapped_crypto_libraries" (arr Items.nil) raw)
        uid ← int_of (get_or "uid" (num (negsuc 0)) raw)
        processes ← rest
        ok (process_item agent pid ticks libraries uid raw ∷ processes)

  -- `for raw in raw_processes`
  unfoldable pub runtime_processes : RuntimeAgent → List Json → Result (List RuntimeProcess)
  unfolding add_process
  runtime_processes agent [] = ok []
  runtime_processes agent (obj raw ∷ rest) =
      let after = runtime_processes agent rest in
      do
        pid ← int_of (get_or "pid" (num (pos 0)) raw)
        ticks ← int_of (get_or "start_time_ticks" (num (pos 0)) raw)
        add_process agent pid ticks raw after
  runtime_processes agent (_ ∷ rest) = runtime_processes agent rest
