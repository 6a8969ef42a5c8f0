-- ===== src/Examples/Hosting.antt =====
-- A document with one hostname, which the lock pins.
use py2fw.Common.{String, ◌≡◌, refl, true, false, Option, none, some, List, [], ◌∷◌, String_eq, has}
use py2fw.Utils.Ip.{is_valid_hostname, hostname_re, is_valid_ip_or_cidr, is_any}
use py2fw.Parser.Schema.{PolicyDocument}
use py2fw.Compiler.Hosts.{Lock, collect_hostnames, resolve_document_hosts}
use py2fw.Compiler.Hosts.Pinned.{resolve_document_hosts-pinned}
use py2fw.Examples.Samples.{sample_text}

abbrev host_document : PolicyDocument
host_document = record {
  version = 1;
  environment = "";
  objects = ("db", "db.corp" ∷ []) ∷ [];
  groups = [];
  services = [];
  policies = [];
  exceptions = [];
  tests = [];
}

abbrev host_lock : Lock
host_lock = ("db.corp", "10.1.2.3/32" ∷ []) ∷ []

abbrev moved : String → Option (List String)
moved host = some ("10.9.9.9/32" ∷ [])

resolve_document_hosts-pinned_example :
    (resolve_document_hosts sample_text host_document "lock" host_lock true false moved
      ≡ resolve_document_hosts sample_text host_document "lock" host_lock false false
          (λ host. none))
    × ((resolve_document_hosts sample_text host_document "lock" host_lock true false moved).1
        ≡ none)
unfolding collect_hostnames is_valid_hostname hostname_re is_valid_ip_or_cidr is_any has
resolve_document_hosts-pinned_example =
    resolve_document_hosts-pinned sample_text host_document "lock" host_lock moved (λ host. none)
      refl
