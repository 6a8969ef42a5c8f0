-- ===== src/Compiler/Hosts.antt =====
-- resolve_document_hosts of py2fw/compiler/hosts.py. The lock file that was read, the lookup and
-- the place of the lock file are arguments; the lock that is written is a result.
pub mod Pinned
use py2fw.Common.{
  String, Bool, true, false, not, ◌&&◌, Option, none, some, List, [], ◌∷◌, elem, is_empty, flat_map,
  from_keys, map, select, values, Dict, get, has, insert, if◌then◌else◌, String_eq, sorted_texts,
}
use py2fw.IpAddress.{IpText}
use py2fw.Utils.Ip.{is_hostname}
use py2fw.Parser.Schema.{PolicyDocument}

abbrev pub Lock : Type 0
Lock = Dict String (List String)

pub record HostResolution : Type 0 where
  pub mapping : Lock
  pub unresolved : List String
  pub lockfile : Option String

unfoldable pub collect_hostnames : IpText → PolicyDocument → List String
collect_hostnames ip document =
    from_keys (map ip.lower (flat_map (select (is_hostname ip)) (values document.objects)))

-- The variables `locked` and `changed` of the loop.
pub record Locking : Type 0 where
  pub locked : Lock
  pub changed : Bool

-- The loop over the hosts; a lookup without a result is the OSError.
unfoldable pub look_up : (String → Option (List String)) → Bool → Locking → List String → Locking
unfolding has insert
look_up lookup refresh state [] = state
look_up lookup refresh state (host ∷ hosts) =
    look_up lookup refresh
      (if has host state.locked && not refresh then state else elim (lookup host) [
        | none ↦ state
        | some addresses ↦ record { locked = insert host addresses state.locked; changed = true }
      ])
      hosts

-- `{host: tuple(locked[host]) for host in hostnames if locked.get(host)}`
unfoldable pub pin : Lock → List String → Lock
unfolding get
pin locked [] = []
pin locked (host ∷ hosts) =
    let rest = pin locked hosts in
    elim (get host locked) [
      | none ↦ rest
      | some [] ↦ rest
      | some (address ∷ addresses) ↦ (host, address ∷ addresses) ∷ rest
    ]

-- The result, and the lock that is written, if any.
unfoldable pub resolve_document_hosts :
    IpText
    → PolicyDocument
    → String
    → Lock
    → Bool
    → Bool
    → (String → Option (List String))
    → HostResolution × Option Lock
unfolding collect_hostnames look_up pin has
resolve_document_hosts ip document lock_path locked do_dns refresh lookup =
    let hostnames : List String = collect_hostnames ip document in
    let state : Locking =
      if do_dns
      then look_up lookup refresh (record { locked = locked; changed = false })
          (sorted_texts hostnames)
      else record { locked = locked; changed = false } in
    let mapping : Lock = pin state.locked hostnames in
    if is_empty hostnames
    then (record { mapping = []; unresolved = []; lockfile = none }, none)
    else (
      record {
        mapping = mapping;
        unresolved = sorted_texts (select (λ host. not (has host mapping)) hostnames);
        lockfile = some lock_path;
      },
      if state.changed
          then some (select (λ (p : String × List String). elem p.0 hostnames) state.locked)
          else none,
    )
