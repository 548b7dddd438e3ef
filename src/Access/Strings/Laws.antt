-- ===== src/Access/Strings/Laws.antt =====
-- libvmi/read.c: the string that vmi_read_str gives, and where it gives copies of a page instead.
use native.Mathlib.Nat.{suc-mul}
use mathlib.Core.Path.{ap₂}
use libvmi.Common.{
  ℕ, zero, suc, ◌+◌, ◌-◌, ◌^◌, ◌%◌, ◌≤◌, ◌<◌, bit_and, Bool, true, false, List, ◌++◌, length,
  length-append, [], ◌*◌, sym, Option, none, some, if◌then◌else◌, ◌≡◌, ◌≢◌, refl, ap, ◌∙◌, arith,
}
use libvmi.Bits.{bit_mask, bit_and-low}
use libvmi.Types.{success, Conf, AccessContext}
use libvmi.Access.Env.{Env, Start}
use libvmi.Access.Window.{window, length-window}
use libvmi.Access.Paging.{IsPaged, IsMapped, IsBacked}
use libvmi.Access.Read.{read_start, start_ok, vmi_read}
use libvmi.Access.Read.Laws.{vmi_read-window}
use libvmi.Access.Strings.{until_nul, has_nul, old, is_lost, read_str, vmi_read_str}

until_nul-window :
    (f : ℕ → ℕ) (a k n : ℕ)
    → k < n
    → ((i : ℕ) → i < k → f (a + i) ≢ 0)
    → f (a + k) ≡ 0
    → (until_nul (window f a n) ≡ window f a k) × (has_nul (window f a n) ≡ true)
unfolding window until_nul has_nul
until_nul-window f a k zero h before nul = elim h [ ]
until_nul-window f a zero (suc n) h before nul =
    let here : f a ≡ 0 = ap f (omega arith) ∙ nul in (ground (arith, here), ground (arith, here))
until_nul-window f a (suc k) (suc n) h before nul =
    let here : f a ≢ 0 = λ e. before 0 (omega arith) (ap f (omega arith) ∙ e) in
    let (text, found) =
      until_nul-window f (a + 1) k n (omega (arith, h))
        (λ i lt e. before (suc i) (omega (arith, lt)) (ap f (omega arith) ∙ e))
        (ap f (omega arith) ∙ nul) in
    (ground (arith, here, text), ground (arith, here, found))

has_nul-window :
    (f : ℕ → ℕ) (a n : ℕ) → ((i : ℕ) → i < n → f (a + i) ≢ 0) → has_nul (window f a n) ≡ false
unfolding window has_nul
has_nul-window f a zero before = refl
has_nul-window f a (suc n) before =
    let here : f a ≢ 0 = λ e. before 0 (omega arith) (ap f (omega arith) ∙ e) in
    ground (
      arith,
      here,
      has_nul-window f (a + 1) n
          (λ i lt e. before (suc i) (omega (arith, lt)) (ap f (omega arith) ∙ e)),
    )

until_nul-whole :
    (f : ℕ → ℕ) (a n : ℕ)
    → ((i : ℕ) → i < n → f (a + i) ≢ 0)
    → until_nul (window f a n) ≡ window f a n
unfolding window until_nul
until_nul-whole f a zero before = refl
until_nul-whole f a (suc n) before =
    let here : f a ≢ 0 = λ e. before 0 (omega arith) (ap f (omega arith) ∙ e) in
    ground (
      arith,
      here,
      until_nul-whole f (a + 1) n
          (λ i lt e. before (suc i) (omega (arith, lt)) (ap f (omega arith) ∙ e)),
    )

-- A text a number of times, and as the string of that many rounds.
unfoldable pub repeated : ℕ → List ℕ → List ℕ
repeated zero xs = []
repeated (suc n) xs = repeated n xs ++ xs

unfoldable pub copies : ℕ → List ℕ → Option (List ℕ)
copies zero xs = none
copies (suc n) xs = some (repeated (suc n) xs)

old-copies : (n : ℕ) (xs : List ℕ) → old (copies n xs) ≡ repeated n xs
unfolding old copies repeated
old-copies zero xs = refl
old-copies (suc n) xs = refl

length-repeated : (n : ℕ) (xs : List ℕ) → length (repeated n xs) ≡ n * length xs
unfolding repeated
length-repeated zero xs = omega arith
length-repeated (suc n) xs =
    length-append (repeated n xs) xs
    ∙ ap (λ (k : ℕ). k + length xs) (length-repeated n xs)
    ∙ sym (suc-mul n (length xs))

module _ {S : Type 0} (env : Env S) (conf : Conf) (realloc : ℕ → S → Bool × S) (ctx : AccessContext)
    (start : Start) (IsGood : S → Type 0) (mem tr : ℕ → ℕ) (paged : IsPaged conf)
    (small_page : conf.page_size < 2 ^ 63)
    (begun : (s : S)
      → IsGood s
      → (s' : S) × (read_start env conf ctx s ≡ (some start, s')) × IsGood s')
    (checked : start_ok env conf ctx start ≡ true) (fits : start.addr + 4096 ≤ 2 ^ 64)
    (at : start.addr ≡ ctx.addr) where
  abbrev rest_of_page : ℕ
  rest_of_page = 4096 - ctx.addr % 4096

  offset_lem : bit_and ctx.addr (bit_mask 0 11) ≡ ctx.addr % 4096
  offset_lem = bit_and-low 12 ctx.addr

  -- One round that reads with success.
  round_lem :
      (fuel : ℕ) (ret : Option (List ℕ)) (s s₁ : S) (buf : List ℕ)
      → vmi_read env conf ctx (4096 - bit_and ctx.addr (bit_mask 0 11)) s ≡ (success, buf, s₁)
      → (realloc ((length (old ret ++ until_nul buf) + 1) % 2 ^ 64) s₁).0 ≡ true
      → let s₂ = (realloc ((length (old ret ++ until_nul buf) + 1) % 2 ^ 64) s₁).1 in
        let addr = (ctx.addr + bit_and ctx.addr (bit_mask 0 11)) % 2 ^ 64 in
        read_str env conf realloc (suc fuel) ctx ret s ≡ (
          if has_nul buf
          then some (some (old ret ++ until_nul buf), s₂)
          else read_str env conf realloc fuel
              (record ctx { addr = addr })
              (some (old ret ++ until_nul buf))
              s₂)
  unfolding read_str is_lost
  round_lem fuel ret s s₁ buf read grown = ground (arith, read, grown)

  -- A round that asks for `n` bytes and gets none, and one that gets them, without a NUL.
  full_lem :
      (fuel n : ℕ) (ret : Option (List ℕ)) (ret' : List ℕ) (s s₁ : S) (buf : List ℕ)
      → vmi_read env conf ctx (4096 - bit_and ctx.addr (bit_mask 0 11)) s ≡ (success, buf, s₁)
      → old ret ++ until_nul buf ≡ ret'
      → (length ret' + 1) % 2 ^ 64 ≡ n
      → (realloc n s₁).0 ≡ false
      → read_str env conf realloc (suc fuel) ctx ret s ≡ some (ret, (realloc n s₁).1)
  unfolding read_str is_lost
  full_lem fuel n ret ret' s s₁ buf read same need full =
      let asked : (length (old ret ++ until_nul buf) + 1) % 2 ^ 64 ≡ n =
        ap (λ (xs : List ℕ). (length xs + 1) % 2 ^ 64) same ∙ need in
      ground (arith, read, ap (λ (k : ℕ). realloc k s₁) asked, full)

  more_lem :
      (fuel n : ℕ) (ret : Option (List ℕ)) (ret' : List ℕ) (s s₁ : S) (buf : List ℕ)
      → vmi_read env conf ctx (4096 - bit_and ctx.addr (bit_mask 0 11)) s ≡ (success, buf, s₁)
      → old ret ++ until_nul buf ≡ ret'
      → (length ret' + 1) % 2 ^ 64 ≡ n
      → (realloc n s₁).0 ≡ true
      → has_nul buf ≡ false
      → (ctx.addr + bit_and ctx.addr (bit_mask 0 11)) % 2 ^ 64 ≡ ctx.addr
      → read_str env conf realloc (suc fuel) ctx ret s
        ≡ read_str env conf realloc fuel ctx (some ret') (realloc n s₁).1
  unfolding read_str is_lost
  more_lem fuel n ret ret' s s₁ buf read same need grown no_nul stays =
      let asked : (length (old ret ++ until_nul buf) + 1) % 2 ^ 64 ≡ n =
        ap (λ (xs : List ℕ). (length xs + 1) % 2 ^ 64) same ∙ need in
      let next =
        ap
          (λ (a : ℕ).
            read_str env conf realloc fuel (record ctx { addr = a }) (some ret') (realloc n s₁).1)
          stays in
      ground (arith, read, ap (λ (k : ℕ). realloc k s₁) asked, same, grown, no_nul, next)

  module _ (backed : IsBacked env conf IsGood mem tr start.addr rest_of_page)
      (mapped : IsMapped env conf ctx start IsGood tr start.addr rest_of_page) where
    got :
        (s : S)
        → IsGood s
        → (s' : S) × (vmi_read env conf ctx (4096 - bit_and ctx.addr (bit_mask 0 11)) s
            ≡ (success, window (λ a. mem (tr a)) start.addr rest_of_page, s'))
          × IsGood s'
    got s good =
        let (s₁, started, good₁) = begun s good in
        let (s', read, good') =
          vmi_read-window env conf ctx start IsGood mem tr rest_of_page paged backed mapped
            (omega (arith, fits)) (omega arith) small_page s s₁ started checked good₁ in
        (s', ap (λ (o : ℕ). vmi_read env conf ctx (4096 - o) s) offset_lem ∙ read, good')

    -- vmi_read_str gives the bytes before the first NUL when there is one in the rest of the page of
    -- 4KB in which the string starts: with one round of its loop, and under the conditions on which
    -- vmi_read gives that rest, with memory for the string.
    pub vmi_read_str-window :
        (k fuel : ℕ) (s : S)
        → k < rest_of_page
        → ((i : ℕ) → i < k → mem (tr (start.addr + i)) ≢ 0)
        → mem (tr (start.addr + k)) ≡ 0
        → ((n : ℕ) (s' : S) → IsGood s' → ((realloc n s').0 ≡ true) × IsGood (realloc n s').1)
        → IsGood s
        → (s' : S) × (vmi_read_str env conf realloc (suc fuel) ctx s
            ≡ some (some (window (λ a. mem (tr a)) start.addr k), s'))
          × IsGood s'
    unfolding vmi_read_str old
    vmi_read_str-window k fuel s h before nul memory good =
        let (s₁, read, good₁) = got s good in
        let buf = window (λ a. mem (tr a)) start.addr rest_of_page in
        let (grown, good₂) = memory ((length (until_nul buf) + 1) % 2 ^ 64) s₁ good₁ in
        let (text, found) =
          until_nul-window (λ a. mem (tr a)) start.addr k rest_of_page h before nul in
        (
          (realloc ((length (until_nul buf) + 1) % 2 ^ 64) s₁).1,
          ground (arith, round_lem fuel none s s₁ buf read grown, text, found),
          good₂,
        )

    module _ (aligned : ctx.addr % 4096 ≡ 0)
        (text : (i : ℕ) → i < 4096 → mem (tr (start.addr + i)) ≢ 0) where
      abbrev page : List ℕ
      page = window (λ a. mem (tr a)) start.addr 4096

      -- A whole page, and the address stays.
      page_lem :
          (s : S)
          → IsGood s
          → (s' : S) × (vmi_read env conf ctx (4096 - bit_and ctx.addr (bit_mask 0 11)) s
              ≡ (success, page, s'))
            × IsGood s'
      page_lem s good =
          let (s', read, good') = got s good in
          let whole : rest_of_page ≡ 4096 = omega (arith, aligned) in
          (
            s',
            read ∙ ap (λ (n : ℕ). (success, window (λ a. mem (tr a)) start.addr n, s')) whole,
            good',
          )

      stays : (ctx.addr + bit_and ctx.addr (bit_mask 0 11)) % 2 ^ 64 ≡ ctx.addr
      stays = omega (arith, offset_lem, aligned, fits, at)

      -- What a round has after `j` rounds, and its size.
      round_text : (j : ℕ) → old (copies j page) ++ until_nul page ≡ repeated (suc j) page
      unfolding repeated
      round_text j =
          ap₂ (λ (xs ys : List ℕ). xs ++ ys) (old-copies j page)
            (until_nul-whole (λ a. mem (tr a)) start.addr 4096 text)

      round_size :
          (j : ℕ)
          → 4096 * suc j + 1 < 2 ^ 64
          → (length (repeated (suc j) page) + 1) % 2 ^ 64 ≡ 4096 * suc j + 1
      round_size j h =
          let long =
            length-repeated (suc j) page
            ∙ ap (λ (n : ℕ). suc j * n) (length-window (λ a. mem (tr a)) start.addr 4096) in
          omega (arith, long, h)

      module _ (k : ℕ) (small : 4096 * suc k + 1 < 2 ^ 64)
          (memory : (n : ℕ) (s : S)
            → n < k
            → IsGood s
            → ((realloc (4096 * suc n + 1) s).0 ≡ true) × IsGood (realloc (4096 * suc n + 1) s).1)
          (full : (s : S)
            → IsGood s
            → ((realloc (4096 * suc k + 1) s).0 ≡ false)
              × IsGood (realloc (4096 * suc k + 1) s).1) where
        copies_lem :
            (d j : ℕ) (s : S)
            → j + d ≡ k
            → IsGood s
            → (s' : S) × (read_str env conf realloc (suc d) ctx (copies j page) s
                ≡ some (copies k page, s'))
              × IsGood s'
        unfolding copies
        copies_lem zero j s last good =
            let (s₁, read, good₁) = page_lem s good in
            let n = 4096 * suc k + 1 in
            let (none_left, good₂) = full s₁ good₁ in
            let here : j ≡ k = omega (arith, last) in
            let need : (length (repeated (suc j) page) + 1) % 2 ^ 64 ≡ n =
              round_size j (omega (arith, small, last)) ∙ ap (λ (i : ℕ). 4096 * suc i + 1) here in
            (
              (realloc n s₁).1,
              full_lem zero n (copies j page) (repeated (suc j) page) s s₁ page read (round_text j)
                    need none_left
                  ∙ ap (λ (i : ℕ). some (copies i page, (realloc n s₁).1)) here,
              good₂,
            )
        copies_lem (suc d) j s last good =
            let (s₁, read, good₁) = page_lem s good in
            let n = 4096 * suc j + 1 in
            let (grown, good₂) = memory j s₁ (omega (arith, last)) good₁ in
            let (s', e, good') =
              copies_lem d (suc j) (realloc n s₁).1 (omega (arith, last)) good₂ in
            (
              s',
              more_lem (suc d) n (copies j page) (repeated (suc j) page) s s₁ page read
                    (round_text j) (round_size j (omega (arith, small, last))) grown
                    (has_nul-window (λ a. mem (tr a)) start.addr 4096 text) stays
                  ∙ e,
              good',
            )

        -- A string that starts at the start of a page of 4KB and has no NUL in that page is never
        -- given. The loop of vmi_read_str reads the page again and again until there is no memory:
        -- when realloc gives memory for up to k copies of the page and not for one more, the call
        -- ends within k + 1 rounds with k copies of the page, whatever stands behind it, and with
        -- NULL if k is 0. The page can be read under the conditions on which vmi_read gives it, and
        -- the size of k + 1 copies is below 2 ^ 64.
        pub vmi_read_str-copies :
            (s : S)
            → IsGood s
            → (s' : S) × (vmi_read_str env conf realloc (suc k) ctx s ≡ some (copies k page, s'))
              × IsGood s'
        unfolding vmi_read_str copies
        vmi_read_str-copies s good = copies_lem k 0 s (omega arith) good
