-- ===== src/Migration/Paths.antt =====
-- The paths, the numbers and the eBPF section that `validate_request` of manager/scan_orchestrator.py
-- lets through.
use pq_migration_gateway.Prelude.{
  ◌≡◌, refl, subst, sym, ap, ℕ, suc, String, true, false, List, [], ◌∷◌, some, ltb, length, ◌==◌,
  Bool-cases, ◌⊎◌, inl, inr, arith, All,
}
use pq_migration_gateway.Prelude.Int.{ℤ, pos, negsuc, leb_ℤ}
use pq_migration_gateway.Result.{ok, require-then, ok-injective, >>=-eq-ok}
use pq_migration_gateway.Json.{
  Json, Fields, null, bool, num, real, str, arr, obj, elements, dict, find, get, get_or, insert,
  truthy, find-insert, get_or-insert_self,
}
use pq_migration_gateway.Report.Processes.{Host, int_of}
use pq_migration_gateway.Migration.Hybrid.{find-insert_other, as_section-eq}
use pq_migration_gateway.Migration.Request.{
  Scanner, clamp, section_or_raise, is_allowed, authorized_path, authorized_paths, path_entries,
  limit, with_ebpf, normalized_request,
}

abbrev pub InRange : ℕ → ℤ → Type 0
InRange most n = (leb_ℤ (pos 1) n ≡ true) × (leb_ℤ n (pos most) ≡ true)

clamp-InRange : (most : ℕ) (n : ℤ) → InRange (suc most) (clamp (pos (suc most)) n)
clamp-InRange most (pos n) = ground arith
clamp-InRange most (negsuc n) = ground arith

pub path_entries-few :
    (h : Host) (s : Scanner) (field : String) (v : Json) (es : List Json)
    → path_entries h s field v ≡ ok es
    → ltb 32 (length es) ≡ false
path_entries-few h s field (arr items) es e = elim (Bool-cases (ltb 32 (length (elements items)))) [
  | inl many ↦ absurd (ground (arith, many))
  | inr few ↦ subst (λ x. ltb 32 (length x) ≡ false) (ok-injective (rw few at e)) few
]
path_entries-few h s field null es e = cc
path_entries-few h s field (bool _) es e = cc
path_entries-few h s field (num _) es e = cc
path_entries-few h s field (real _) es e = cc
path_entries-few h s field (str _) es e = cc
path_entries-few h s field (obj _) es e = cc

module _ (h : Host) (s : Scanner) where
  -- A path that a scan may read.
  abbrev pub Authorized : String → Type 0
  Authorized path = (s.exists path ≡ true) × (is_allowed h s path ≡ true)

  authorized_path-Authorized :
      (v : Json) (path : String) → authorized_path h s v ≡ ok path → Authorized path
  unfolding authorized_path
  authorized_path-Authorized v path e₀ =
      let (there, e₁) = require-then _ _ _ path e₀ in
      let (inside, e₂) = require-then _ _ _ path e₁ in
      subst Authorized (ok-injective e₂) (there, inside)

  pub authorized_paths-Authorized :
      (vs : List Json) (paths : List String)
      → authorized_paths h s vs ≡ ok paths
      → All Authorized paths × (length paths ≡ length vs)
  unfolding authorized_paths
  authorized_paths-Authorized [] paths e =
      subst (λ ps. All Authorized ps × (length ps ≡ 0)) (ok-injective e) (tt, refl)
  authorized_paths-Authorized (v ∷ vs) paths e₀ =
      let (path, one, e₁) = >>=-eq-ok (authorized_path h s v) _ e₀ in
      let (rest, others, e₂) = >>=-eq-ok (authorized_paths h s vs) _ e₁ in
      let (all, same) = authorized_paths-Authorized vs rest others in
      subst (λ ps. All Authorized ps × (length ps ≡ suc (length vs))) (ok-injective e₂)
        ((authorized_path-Authorized v path one, all), ap suc same)

  pub limit-InRange :
      (key : String) (default most : ℕ) (fs : Fields) (n : ℤ)
      → limit h s key default (suc most) fs ≡ ok n
      → InRange (suc most) n
  unfolding limit
  limit-InRange key default most fs n e₀ =
      let (m, _, e₁) = >>=-eq-ok (int_of h (get_or key (num (pos default)) fs)) _ e₀ in
      subst (InRange (suc most)) (ok-injective e₁) (clamp-InRange most m)

  -- What a live eBPF observation needs, if it is enabled.
  abbrev pub IsEbpf : Fields → Type 0
  IsEbpf ebpf =
      (truthy (get "enabled" ebpf) ≡ false)
      ⊎ ((pid : ℤ) × (library : String) × (duration : ℤ) × (ebpf
            ≡ dict (
                ("enabled", bool true)
                ∷ ("pid", num pid)
                ∷ ("library", str library)
                ∷ ("duration", num duration)
                ∷ []))
          × Authorized library
          × InRange 60 duration)

  -- Turning on eBPF writes one key.
  with_ebpf-cases :
      (ebpf normalized out : Fields)
      → with_ebpf h s ebpf normalized ≡ ok out
      → ((truthy (get "enabled" ebpf) ≡ false) × (out ≡ normalized))
        ⊎ ((written : Fields) × (out ≡ insert "ebpf" (obj written) normalized) × IsEbpf written)
  unfolding with_ebpf
  with_ebpf-cases ebpf normalized out e = elim (Bool-cases (truthy (get "enabled" ebpf))) [
    | inr off ↦ inl (off, sym (ok-injective (rw off at e)))
    | inl on ↦
        let (_, e₁) = require-then s.ebpf_enabled _ _ out (rw on at e) in
        let (pid, _, e₂) = >>=-eq-ok (int_of h (get_or "pid" (num (pos 0)) ebpf)) _ e₁ in
        let (library, named, e₃) =
          >>=-eq-ok (authorized_path h s (get_or "library" (str "") ebpf)) _ e₂ in
        let (duration, timed, e₄) = >>=-eq-ok (limit h s "duration" 5 60 ebpf) _ e₃ in
        inr (
          _,
          sym (ok-injective e₄),
          inr (
            pid,
            library,
            duration,
            refl,
            authorized_path-Authorized (get_or "library" (str "") ebpf) library named,
            limit-InRange "duration" 5 59 ebpf duration timed,
          ),
        )
  ]

  pub with_ebpf-keeps :
      (key : String) (ebpf normalized out : Fields) (v : Json)
      → ("ebpf" == key) ≡ false
      → with_ebpf h s ebpf normalized ≡ ok out
      → find key normalized ≡ some v
      → find key out ≡ some v
  with_ebpf-keeps key ebpf normalized out v other e there =
      elim (with_ebpf-cases ebpf normalized out e) [
        | inl (_, same) ↦ rw same there
        | inr (written, made, _) ↦
            rw made (find-insert_other "ebpf" key (obj written) v normalized other there)
      ]

  -- The section of a request that is let through.
  pub section_or_raise-eq :
      (field : String) (v : Json) (fs : Fields) → section_or_raise field v ≡ ok fs → v ≡ obj fs
  section_or_raise-eq field v fs e = as_section-eq v fs (require-then _ _ _ fs e).1

  -- The keys that validate_request writes before do not touch the eBPF section.
  pub normalized_request-ebpf :
      (paths commands : List String) (cpp : String) (traces : List String) (request : Fields)
      → get_or "ebpf" (obj Fields.end) (normalized_request paths commands cpp traces request)
        ≡ get_or "ebpf" (obj Fields.end) request
  unfolding get_or
  normalized_request-ebpf paths commands cpp traces request =
      rw (find-insert, find-insert, find-insert, find-insert, find-insert) refl

  pub with_ebpf-IsEbpf :
      (ebpf normalized out : Fields)
      → get_or "ebpf" (obj Fields.end) normalized ≡ obj ebpf
      → with_ebpf h s ebpf normalized ≡ ok out
      → (fs : Fields) × (get_or "ebpf" (obj Fields.end) out ≡ obj fs) × IsEbpf fs
  with_ebpf-IsEbpf ebpf normalized out given e = elim (with_ebpf-cases ebpf normalized out e) [
    | inl (off, same) ↦ (ebpf, rw same given, inl off)
    | inr (written, made, fine) ↦ (
      written,
      rw made (get_or-insert_self "ebpf" (obj Fields.end) (obj written) normalized),
      fine,
    )
  ]

  -- The limits that are written last leave it.
  pub limits-ebpf :
      (v : Json) (fs : Fields)
      → get_or "ebpf" (obj Fields.end) (insert "limits" v fs) ≡ get_or "ebpf" (obj Fields.end) fs
  unfolding get_or
  limits-ebpf v fs = rw find-insert refl
