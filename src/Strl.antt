-- ===== src/Strl.antt =====
-- patches/misc/strl_compat.h: strlcpy and strlcat, for a glibc below 2.38. Memory is a list of
-- bytes and a pointer an index; `none` is an access outside of the array.
pub mod Copy
pub mod Append
use android_sdk_custom.Prelude.{
  ℕ, zero, suc, ◌+◌, ◌-◌, List, Option, none, some, ◌==◌, if◌then◌else◌, ◌>>=◌, ltb, length,
  get_elem?, set, drop, [], ◌∷◌,
}

-- `*p = v` in an array.
unfoldable pub store : List ℕ → ℕ → ℕ → Option (List ℕ)
store m p v = if ltb p (length m) then some (set m p v) else none

pub record Cursor : Type 0 where
  pub dst : List ℕ
  pub d : ℕ
  pub s : ℕ
  pub nleft : ℕ

-- `while (--nleft != 0) if ((*dst++ = *src++) == '\0') break;` for a positive nleft.
pub copy_loop : List ℕ → ℕ → List ℕ → ℕ → ℕ → Option Cursor
unfolding store
copy_loop src zero dst d s = some (record { dst = dst; d = d; s = s; nleft = 0 })
copy_loop src (suc zero) dst d s = some (record { dst = dst; d = d; s = s; nleft = 0 })
copy_loop src (suc (suc n)) dst d s = get_elem? src s >>= λ c. store dst d c >>= λ dst'.
    let rest = copy_loop src (suc n) dst' (d + 1) (s + 1) in
    if c == 0 then some (record { dst = dst'; d = d + 1; s = s + 1; nleft = suc n }) else rest

-- `while (*src++) {}` from index s, at which the bytes of the second argument stand: the index
-- behind the terminator.
pub skip_loop : ℕ → List ℕ → Option ℕ
skip_loop s [] = none
skip_loop s (c ∷ cs) = let rest = skip_loop (s + 1) cs in if c == 0 then some (s + 1) else rest

pub finish : List ℕ → ℕ → Cursor → Option (List ℕ × ℕ)
unfolding store skip_loop
finish src dsize c =
    if c.nleft == 0
    then ((if dsize == 0 then some c.dst else store c.dst c.d 0) >>= λ dst'.
        skip_loop c.s (drop c.s src) >>= λ s. some (dst', s - 1))
    else some (c.dst, c.s - 1)

-- The new destination and the value returned.
pub strlcpy : List ℕ → List ℕ → ℕ → Option (List ℕ × ℕ)
unfolding copy_loop finish
strlcpy dst src dsize = copy_loop src dsize dst 0 0 >>= finish src dsize

-- `while (n-- != 0 && *dst != '\0') dst++;`: the length of the string in dst, dsize at most.
pub end_loop : ℕ → List ℕ → Option ℕ
end_loop zero m = some 0
end_loop (suc n) [] = none
end_loop (suc n) (c ∷ cs) =
    let rest = end_loop n cs in if c == 0 then some 0 else rest >>= λ k. some (suc k)

-- `strlen`, from the C library.
pub strlen : List ℕ → Option ℕ
strlen [] = none
strlen (c ∷ cs) = let rest = strlen cs in if c == 0 then some 0 else rest >>= λ k. some (suc k)

-- `while (*src != '\0') { if (n != 0) { *dst++ = *src; n--; } src++; }` and the final `*dst = '\0'`.
-- The result is the destination and the number of bytes that src moved on.
pub append_loop : List ℕ → ℕ → List ℕ → ℕ → Option (List ℕ × ℕ)
unfolding store
append_loop [] n dst d = none
append_loop (c ∷ cs) zero dst d =
    let rest = append_loop cs 0 dst d in
    if c == 0
    then (store dst d 0 >>= λ dst'. some (dst', 0))
    else rest >>= λ (out, k). some (out, suc k)
append_loop (c ∷ cs) (suc n) dst d =
    let rest = store dst d c >>= λ dst'. append_loop cs n dst' (d + 1) in
    if c == 0
    then (store dst d 0 >>= λ dst'. some (dst', 0))
    else rest >>= λ (out, k). some (out, suc k)

pub strlcat : List ℕ → List ℕ → ℕ → Option (List ℕ × ℕ)
unfolding end_loop strlen append_loop
strlcat dst src dsize = end_loop dsize dst >>= λ dlen.
    let append = append_loop src (dsize - dlen - 1) dst dlen in
    if dsize - dlen == 0
    then (strlen src >>= λ k. some (dst, dlen + k))
    else append >>= λ (out, k). some (out, dlen + k)
