-- ===== src/HttpApi/Pages.antt =====
-- The parameters of a page: `respond_http` and `respond_parameterized_view` of
-- cpp-source/http-api.cpp.
use libjaypea.Base.{
  ℕ, zero, suc, ◌+◌, ◌-◌, ◌%◌, ◌^◌, ◌<◌, Bytes, codes, [], ◌∷◌, ◌++◌, ◌≡◌, refl, ap, Option, none,
  some, Dict, length, take, drop, arith,
}
use libjaypea.Util.Replace.{find, replace_all}
use libjaypea.Util.Replace.Laws.{replace_all-nil}

-- The loop over the view's parameters. `none` means that the fuel ran out.
unfoldable pub fill : ℕ → Dict Bytes → Bytes → Option Bytes
fill f [] body = some body
fill f ((name, value) ∷ parameters) body =
    elim (replace_all f body (codes "{{{" ++ (name ++ codes "}}}")) value) [
      | none ↦ none
      | some filled ↦ fill f parameters filled
    ]

-- `substr(parameter_start, parameter_end - parameter_start + 3)`, whose length is a `size_t`.
unfoldable pub parameter : Bytes → ℕ → ℕ → Bytes
parameter body parameter_start parameter_end =
    take (((parameter_end + 3) + (2 ^ 64 - parameter_start)) % 2 ^ 64) (drop parameter_start body)

-- The loop that empties the parameters that are left: the first `}}}` is looked for from the
-- beginning of the body.
unfoldable pub empty_loop : ℕ → Bytes → Option Bytes
empty_loop zero body = none
empty_loop (suc f) body = elim (find (codes "{{{") body) [
  | none ↦ some body
  | some (front, behind) ↦ elim (find (codes "}}}") body) [
    | none ↦ some body
    | some (front', behind') ↦
        elim (replace_all f body (parameter body (length front) (length front')) []) [
          | none ↦ none
          | some emptied ↦ empty_loop f emptied
        ]
  ]
]

unfoldable pub render : ℕ → Dict Bytes → Bytes → Option Bytes
render f parameters body = elim (fill f parameters body) [
  | none ↦ none
  | some filled ↦ empty_loop f filled
]

parameter-nil :
    (body : Bytes) (parameter_end : ℕ)
    → parameter_end + 3 < 2 ^ 64
    → parameter body (parameter_end + 3) parameter_end ≡ []
unfolding parameter
parameter-nil body parameter_end l =
    let none_of_it : ((parameter_end + 3) + (2 ^ 64 - (parameter_end + 3))) % 2 ^ 64 ≡ 0 =
      omega arith in
    ap (λ (n : ℕ). take n (drop (parameter_end + 3) body)) none_of_it

-- A page whose first closing braces stand directly in front of its first opening ones,
-- fewer than 2 ^ 64 bytes from the start, is never rendered: the text between them has length 0, and `replace_all` looks for the empty text.
pub empty_loop-hangs :
    (f : ℕ) (body front behind front' behind' : Bytes)
    → find (codes "{{{") body ≡ some (front, behind)
    → find (codes "}}}") body ≡ some (front', behind')
    → length front ≡ length front' + 3
    → length front' + 3 < 2 ^ 64
    → empty_loop f body ≡ none
unfolding empty_loop
empty_loop-hangs zero body front behind front' behind' opens closes close_first small = refl
empty_loop-hangs (suc f) body front behind front' behind' opens closes close_first small =
    rw
      (
        empty_loop,
        opens,
        closes,
        close_first,
        parameter-nil body (length front') small,
        replace_all-nil f body [],
      )
      refl
