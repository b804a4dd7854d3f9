-- ===== src/Normalize/Restore/Workers.antt =====
-- src/sensorium/runtime/model_normalize.py, the kind and the worker of a backend, over what it gave.
use sensorium.Base.{
  ℕ, ◌≡◌, refl, subst, Bool, true, false, not, List, [], ◌∷◌, ◌++◌, map, Option, none, some, Text,
  codes, lookup, bytes_eq, pos,
}
use sensorium.Base.Result.{ok, ◌>>=◌, Ensures, Ensures-ok, Ensures-bind, Ensures-elim}
use sensorium.Normalize.Values.{
  Value, null, other, bool, int, str, blob, arr, obj, Fields, get, or_else, pairs, of_pairs,
  to_list, expect_mapping, expect_list,
}
use sensorium.Normalize.Words.{strip, is_empty}
use sensorium.Normalize.Expect.{checked, expect_string, expect_hex_int}
use sensorium.Normalize.Parts.{one_of, optional, collect}
use sensorium.Normalize.Items.{
  TemplateKind, register_bank, spi_kind, uart_kind, template_kinds, BackendItem, by_template,
  by_controller, WorkerItem, expect_strings, normalize_worker, worker_of, kinds, backend_by_kind,
  normalize_backend,
}
use sensorium.Normalize.Export.{
  Entries, entries, number_value, key_text, kind_text, backend_entries, worker_value,
}
use sensorium.Normalize.Restore.Texts.{expect_string_again, checked-eq}
use sensorium.Normalize.Restore.Numbers.{expect_hex_int_again}
use sensorium.Normalize.Restore.Dicts.{collect_all_again}
use sensorium.Normalize.Restore.Parts.{shown, optional_again, all-Always, Always}
use sensorium.Normalize.Restore.Scripts.{to_list-of_list}

abbrev StringsAgain : List Text → Type 0
StringsAgain ts = expect_strings (map key_text ts) ≡ ok ts

strings_again : (vs : List Value) → Ensures StringsAgain (expect_strings vs)
unfolding expect_strings
strings_again [] = Ensures-ok StringsAgain refl
strings_again (v ∷ vs) = Ensures-bind StringsAgain (expect_string v) _ (λ t e0.
    Ensures-bind StringsAgain (expect_strings vs) _ (λ ts e1.
      let rest : expect_strings (map key_text ts) ≡ ok ts =
        Ensures-elim StringsAgain (expect_strings vs) ts (strings_again vs) e1 in
      Ensures-ok StringsAgain (rw (expect_string_again v t e0, rest) refl)))

-- the keys of an exported worker
worker_keys :
    (c : List Text) (l b : ℕ) (cwd : Option Text) (env : List (Text × Text))
    → expect_strings (map key_text c) ≡ ok c
    → not (is_empty c) ≡ true
    → expect_hex_int 0 (some 255) (number_value l) ≡ ok l
    → expect_hex_int 0 (some 60000) (number_value b) ≡ ok b
    → optional expect_string (shown key_text cwd) ≡ ok cwd
    → collect bytes_eq expect_string expect_string []
        (pairs (of_pairs (entries key_text key_text env)))
      ≡ ok env
    → normalize_worker (
        worker_value
          (record { command = c; restart_limit = l; restart_backoff_ms = b; cwd = cwd; env = env }))
      ≡ ok (record { command = c; restart_limit = l; restart_backoff_ms = b; cwd = cwd; env = env })
unfolding normalize_worker collect
worker_keys c l b none [] hc full hl hb hw he =
    rw (to_list-of_list (map key_text c), hc, full, hl, hb) refl
worker_keys c l b none (e ∷ es) hc full hl hb hw he =
    rw (to_list-of_list (map key_text c), hc, full, hl, hb, he) refl
worker_keys c l b (some d) [] hc full hl hb hw he =
    rw (to_list-of_list (map key_text c), hc, full, hl, hb, hw) refl
worker_keys c l b (some d) (e ∷ es) hc full hl hb hw he =
    rw (to_list-of_list (map key_text c), hc, full, hl, hb, hw, he) refl

abbrev WorkerAgain : WorkerItem → Type 0
WorkerAgain w = normalize_worker (worker_value w) ≡ ok w

worker_again : (v : Value) → Ensures WorkerAgain (normalize_worker v)
unfolding normalize_worker
worker_again v = Ensures-bind WorkerAgain (expect_mapping v) _ (λ fs e0.
    Ensures-bind WorkerAgain (expect_list (or_else null (get (codes "command") fs))) _ (λ items e1.
      Ensures-bind WorkerAgain (expect_strings (to_list items)) _ (λ command e2.
        Ensures-bind WorkerAgain (checked (not (is_empty command)) command) _ (λ kept e3.
          Ensures-bind WorkerAgain
            (expect_hex_int 0 (some 255) (or_else (int (pos 3)) (get (codes "restart_limit") fs))) _
            (λ l e4.
              Ensures-bind WorkerAgain
                (expect_hex_int 0 (some 60000)
                  (or_else (int (pos 250)) (get (codes "restart_backoff_ms") fs)))
                _
                (λ b e5.
                  Ensures-bind WorkerAgain (optional expect_string (get (codes "cwd") fs)) _
                    (λ cwd e6.
                      Ensures-bind WorkerAgain
                        (expect_mapping (or_else null (get (codes "env") fs))) _
                        (λ envs e7.
                          Ensures-bind WorkerAgain
                            (collect bytes_eq expect_string expect_string [] (pairs envs)) _
                            (λ env e8.
                              let (full, same) =
                                checked-eq (not (is_empty command)) command kept e3 in
                              Ensures-ok WorkerAgain (
                                worker_keys kept l b cwd env
                                  (subst StringsAgain same (
                                    Ensures-elim StringsAgain (expect_strings (to_list items))
                                      command (strings_again (to_list items)) e2))
                                  (subst (λ (c : List Text). not (is_empty c) ≡ true) same full)
                                  (expect_hex_int_again 0 (some 255)
                                    (or_else (int (pos 3)) (get (codes "restart_limit") fs)) l e4)
                                  (expect_hex_int_again 0 (some 60000)
                                    (or_else (int (pos 250)) (get (codes "restart_backoff_ms") fs))
                                    b e5)
                                  (optional_again Always expect_string key_text
                                    (λ v' t h _. expect_string_again v' t h) (get (codes "cwd") fs)
                                    cwd e6 (all-Always cwd))
                                  (collect_all_again bytes_eq expect_string expect_string key_text
                                    key_text (pairs envs) env e8 expect_string_again
                                    expect_string_again)))))))))))

template_kind_again : (k : TemplateKind) → one_of template_kinds (str (kind_text k)) ≡ ok k
unfolding expect_string strip lookup
template_kind_again register_bank = refl
template_kind_again spi_kind = refl
template_kind_again uart_kind = refl

kind_again :
    (one_of kinds (str (codes "template")) ≡ ok true)
    × (one_of kinds (str (codes "controller")) ≡ ok false)
unfolding expect_string strip lookup
kind_again = (refl, refl)

-- what the keys of a backend that stand before the script are read to
pub template_restored :
    (kind : TemplateKind) (rest : Entries)
    → normalize_backend (of_pairs (backend_entries (by_template kind) ++ rest))
      ≡ ok (by_template kind)
unfolding normalize_backend
template_restored kind rest = rw (kind_again.0, template_kind_again kind) refl

abbrev WorkerOf : Option WorkerItem → Type 0
WorkerOf none = Unit
WorkerOf (some w) = WorkerAgain w

abbrev BackendAgain : BackendItem → Type 0
BackendAgain (by_template kind) = Unit
BackendAgain (by_controller worker) =
    normalize_backend (of_pairs (backend_entries (by_controller worker)))
    ≡ ok (by_controller worker)

controller_keys :
    (worker : Option WorkerItem) → WorkerOf worker → BackendAgain (by_controller worker)
unfolding normalize_backend
controller_keys none h = rw kind_again.1 refl
controller_keys (some w) h = rw (kind_again.1, h) refl

behind_worker : (v : Value) → Ensures WorkerOf (normalize_worker v >>= λ w. ok (some w))
behind_worker v =
    Ensures-bind WorkerOf (normalize_worker v) (λ w. ok (some w))
      (λ w e.
        Ensures-ok WorkerOf (Ensures-elim WorkerAgain (normalize_worker v) w (worker_again v) e))

worker_of_again : (v : Value) → Ensures WorkerOf (worker_of v)
worker_of_again null = Ensures-ok WorkerOf tt
worker_of_again other = behind_worker other
worker_of_again (bool b) = behind_worker (bool b)
worker_of_again (int n) = behind_worker (int n)
worker_of_again (str t) = behind_worker (str t)
worker_of_again (blob bs) = behind_worker (blob bs)
worker_of_again (arr vs) = behind_worker (arr vs)
worker_of_again (obj fs) = behind_worker (obj fs)

by_kind_again : (kind : Bool) (fs : Fields) → Ensures BackendAgain (backend_by_kind kind fs)
by_kind_again true fs =
    Ensures-bind BackendAgain (one_of template_kinds (or_else null (get (codes "template") fs))) _
      (λ k e. Ensures-ok BackendAgain tt)
by_kind_again false fs =
    Ensures-bind BackendAgain (worker_of (or_else null (get (codes "worker") fs))) _ (λ w e.
      Ensures-ok BackendAgain (
        controller_keys w (
          Ensures-elim WorkerOf (worker_of (or_else null (get (codes "worker") fs))) w
            (worker_of_again (or_else null (get (codes "worker") fs))) e)))

backend_again : (fs : Fields) → Ensures BackendAgain (normalize_backend fs)
unfolding normalize_backend
backend_again fs =
    Ensures-bind BackendAgain (one_of kinds (or_else null (get (codes "kind") fs))) _
      (λ kind e. by_kind_again kind fs)

pub controller_restored :
    (fs : Fields) (worker : Option WorkerItem)
    → normalize_backend fs ≡ ok (by_controller worker)
    → normalize_backend (of_pairs (backend_entries (by_controller worker)))
      ≡ ok (by_controller worker)
controller_restored fs worker h =
    Ensures-elim BackendAgain (normalize_backend fs) (by_controller worker) (backend_again fs) h
