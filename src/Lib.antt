-- ===== src/Lib.antt =====
-- py2fw compiles a firewall policy, written in YAML, to the rules of several devices, and guards its
-- release. This library models the parts between the reading of the policy and its release, with
-- one of the renderings of rules: the data model, the compiler, the evaluation engine, the analyzers, the
-- gate, the baseline, the regression tests, the check of a generated configuration, the pipeline of
-- these parts, the commands that run it, the difference of policies, release plans with their
-- approvals and deployments, and the audit log.
--
-- The parts and how they interact. The schema (Parser/Schema, of py2fw/parser/schema.py) holds a
-- policy document, and the source map (Parser/SourceMap, of py2fw/parser/source_map.py) the lines
-- of its places. The validator (Compiler/Validator and Compiler/Issues, of
-- py2fw/compiler/validator.py) lists the issues of a document. The resolver (Compiler/Resolver, of
-- py2fw/compiler/resolver.py) replaces groups by their values, and the builder (Compiler/Builder,
-- of py2fw/compiler/builder.py) makes the records of Compiler/Ir with the port specifications of
-- Compiler/PortRange and Compiler/PortSpec, all three of py2fw/compiler/ir.py. Compiler/Query, of
-- py2fw/compiler/query.py, looks names up in them for every later part. Compiler/Hosts, of
-- py2fw/compiler/hosts.py, pins the addresses of hostnames. The engine (Engine/Evaluate, of
-- py2fw/engine/evaluate.py) decides a flow by the first matching rule. The analyzers (Analyzers,
-- of py2fw/analyzers/) report findings on a policy and map it to security controls. The baseline
-- (Enforcement/Controls and Enforcement/Baseline, of py2fw/enforcement/baseline.py) sets the
-- controls of an environment and reports forbidden rules; the regression tests
-- (Verify/Regression, of py2fw/verify/regression.py) ask the engine for expected verdicts. The
-- gate (Analyzers/Gate, of py2fw/analyzers/gate.py) takes the findings, the issues and the test
-- results together and says whether the policy may be released. An exporter is an instance of
-- the interface in Plugins/Base, kept by name in Plugins/Registry, of py2fw/plugins;
-- Exporters/Helpers, of py2fw/exporters/_helpers.py, warns of what a target cannot express,
-- Exporters/Iptables, of py2fw/exporters/iptables/exporter.py, writes the rules for Linux, and
-- Verify/Config with Verify/Tokens, of py2fw/verify/config.py, compares a generated text with the
-- policy. Cli/Pipeline, of py2fw/cli/_pipeline.py, calls all of these in their order, and
-- Cli/Commands, of py2fw/main.py, turns the results into exit statuses and output. Release/Content,
-- Release/Approvals, Release/Summary, Release/Plan, Release/Verifying and Release/Deploy, of
-- py2fw/release/plan.py, run the pipeline for a plan, count its approvals, and run it again before
-- a deployment, and Cli/Releasing, of py2fw/main.py, has the commands around them. Engine/Diff, of
-- py2fw/engine/diff.py, tells what a plan changes, and Release/Audit, of py2fw/release/audit.py,
-- chains the events of releases by hashes. Release/Lifecycle has the steps of a plan as a
-- relation. Utils holds the address helpers of py2fw/utils/ip.py and Python's texts, and Examples
-- applies the theorems to small policies.
--
-- Conventions. A function has the name of the Python function without its leading underscore. A
-- raised exception is `none`, a constructor of `Resolved` for the two errors of the resolver, or,
-- from the pipeline on, a `Failure` of Cli/Outcome, whose calls are chained by `do`. A dict is an
-- association list in insertion order (Common/Dicts). A set that is only tested or listed is a
-- list. Numbers are natural numbers, as ports, lines and prefix lengths are; a date is its ordinal.
-- The text syntax of addresses, the registry of private networks, the lower case of a text and what
-- `isdigit` and `int` make of a text beyond ASCII are the fields of the parameter `IpText`
-- (IpAddress); networks and addresses themselves are modelled
-- by the documented attributes of the module ipaddress. What the commands take from their
-- surroundings, the files' parsers, SHA-256, the clock, DNS, environment variables and vendor
-- tools, is the parameter `World` (Cli/World); the HMAC, the hash of a plan's content, the text
-- diff and the paths of the state directory are parameters of Release. Files are texts by their
-- paths, and a deployment hands files and log on from step to step (`Deployment`).
--
-- Fuel. `resolve_group` takes fuel for its recursion; one more than the number of groups is
-- enough, since each call puts a group on the stack that was not on it. `SourceMap.line` takes
-- one more than the length of the location, since each round shortens it. The loop of
-- `_expand` (Analyzers/UnusedObjects) takes one more than the number of the first names and of
-- all members, since each name that joins the stack is one of these. `str_ℕ` takes one more than
-- the number it writes.
--
-- Not modelled: the YAML, JSON and pydantic libraries, the command line's options, printing, the
-- rendering for the devices other than iptables, the reports and graphs, and errors of the file
-- system: they read, write and format texts. A plan's content is taken to have the fields that
-- create_plan writes.
pub mod Common
pub mod IpAddress
pub mod Utils
pub mod Parser
pub mod Compiler
pub mod Engine
pub mod Analyzers
pub mod Enforcement
pub mod Verify
pub mod Examples
pub mod Release
pub mod Exporters
pub mod Plugins
pub mod Cli
