-- ===== src/Portal/Params/Declared.antt =====
-- The parameters of a session: `resolve_request_params` of manager/sessions.py.
use educates_training_platfo.Prelude.{
  String, Bool, ◌&&◌, ◌||◌, ◌≡◌, refl, ap, ◌∙◌, Option, List, [], ◌∷◌, any, truthy, default,
  is_some, arith, Bool-cases, inl, inr, str_eq, eq_iff,
}
use educates_training_platfo.Dict.{Dict, get, put, get-put}
use educates_training_platfo.Portal.Models.{WorkshopParam}
use educates_training_platfo.Portal.Params.{
  default_value, default_params, supplied, resolve_request_params,
}

-- A parameter of the list has this name, which is not empty.
abbrev pub declares : String → List WorkshopParam → Bool
declares k items = truthy k && any (λ i. str_eq (default "" i.name) k) items

get-put_known :
    (d : Dict String) (j k v : String)
    → is_some (get (put d j v) k) ≡ (str_eq j k || is_some (get d k))
get-put_known d j k v = ground (arith, get-put d j k v)

default_params-known :
    (xeger : String → String) (d : Dict String) (items : List WorkshopParam) (k : String)
    → is_some (get (default_params xeger d items) k) ≡ (is_some (get d k) || declares k items)
unfolding default_params
default_params-known xeger d [] k = ground arith
default_params-known xeger d (item ∷ items) k =
    let name = default "" item.name in
    elim (Bool-cases (str_eq name k)) [
      | inl t ↦
          let same : truthy name ≡ truthy k = ap truthy ((eq_iff name k).0 t) in
          elim (Bool-cases (truthy name)) [
            | inl y ↦
                let step =
                  default_params-known xeger (put d name (default_value xeger item)) items k in
                ground (arith, t, y, same, step, get-put_known d name k (default_value xeger item))
            | inr n ↦ ground (arith, t, n, same, default_params-known xeger d items k)
          ]
      | inr f ↦ elim (Bool-cases (truthy name)) [
        | inl y ↦
            let step = default_params-known xeger (put d name (default_value xeger item)) items k in
            ground (arith, f, y, step, get-put_known d name k (default_value xeger item))
        | inr n ↦ ground (arith, f, n, default_params-known xeger d items k)
      ]
    ]

supplied-known :
    (d : Dict String) (items : List (Option String × Option String)) (k : String)
    → is_some (get (supplied d items) k) ≡ is_some (get d k)
unfolding supplied
supplied-known d [] k = refl
supplied-known d ((name', value') ∷ items) k =
    let name = default "" name' in
    let value = default "" value' in
    elim (Bool-cases (truthy name && is_some (get d name))) [
      | inr n ↦ rw n (supplied-known d items k)
      | inl y ↦ elim (Bool-cases (str_eq name k)) [
        | inr f ↦ rw y (
            supplied-known (put d name value) items k
            ∙ ground (arith, f, get-put_known d name k value))
        | inl t ↦
            let same : is_some (get d name) ≡ is_some (get d k) =
              ap (λ (x : String). is_some (get d x)) ((eq_iff name k).0 t) in
            rw y (
              supplied-known (put d name value) items k
              ∙ ground (arith, t, y, same, get-put_known d name k value))
      ]
    ]

-- Whatever a request supplies, the parameters of its session are those that the workshop declares
-- under a name that is not empty, and no others.
pub resolve_request_params-declared :
    (xeger : String → String) (declared : List WorkshopParam)
    (params : List (Option String × Option String)) (k : String)
    → is_some (get (resolve_request_params xeger declared params) k) ≡ declares k declared
unfolding resolve_request_params get
resolve_request_params-declared xeger declared params k =
    supplied-known (default_params xeger [] declared) params k
    ∙ default_params-known xeger [] declared k
