-- ===== src/Compiler/Hosts/Pinned.antt =====
-- Hosts that the lock file pins are not looked up: py2fw/compiler/hosts.py.
use py2fw.Common.{
  String, ◌≡◌, refl, true, false, Option, none, List, [], ◌∷◌, all, has, String_eq, sorted_texts,
  all-sorted_texts, arith,
}
use py2fw.IpAddress.{IpText}
use py2fw.Parser.Schema.{PolicyDocument}
use py2fw.Compiler.Hosts.{Lock, Locking, collect_hostnames, look_up, resolve_document_hosts}

look_up-pinned :
    (lookup : String → Option (List String)) (state : Locking) (hosts : List String)
    → all (λ host. has host state.locked) hosts ≡ true
    → look_up lookup false state hosts ≡ state
unfolding look_up
look_up-pinned lookup state [] h = refl
look_up-pinned lookup state (host ∷ hosts) h = ground (arith, h, look_up-pinned lookup state hosts)

-- When the lock pins every hostname of the document and no refresh is asked for, the result is the
-- one without any lookup, whatever a lookup would give, and no lock is written.
pub resolve_document_hosts-pinned :
    (ip : IpText) (document : PolicyDocument) (lock_path : String) (locked : Lock)
    (lookup other : String → Option (List String))
    → all (λ host. has host locked) (collect_hostnames ip document) ≡ true
    → (resolve_document_hosts ip document lock_path locked true false lookup
        ≡ resolve_document_hosts ip document lock_path locked false false other)
      × ((resolve_document_hosts ip document lock_path locked true false lookup).1 ≡ none)
unfolding resolve_document_hosts
resolve_document_hosts-pinned ip document lock_path locked lookup other h =
    let same =
      look_up-pinned lookup (record { locked = locked; changed = false })
        (sorted_texts (collect_hostnames ip document))
        (ground
          (arith, h, all-sorted_texts (λ host. has host locked) (collect_hostnames ip document))) in
    (ground (arith, same), ground (arith, same))
