-- ===== src/Pipeline/Lcm/Paths.antt =====
-- Which codelet file the two load requests name.
use e3controller.Common.{
  ℕ, zero, suc, ◌+◌, ◌-◌, ◌<◌, ◌≤◌, ◌≡◌, ◌↔◌, refl, ap, List, [], ◌∷◌, ◌++◌, length, length-append,
  arith,
}
use e3controller.Pipeline.Lcm.{codes, Lengths, take, strncpy, slot_load_req, iq_load_req}

take-all : (n : ℕ) (xs : List ℕ) → length xs ≤ n → take n xs ≡ xs
take-all zero [] h = refl
take-all zero (x ∷ xs) h = absurd (omega (arith, h))
take-all (suc n) [] h = refl
take-all (suc n) (x ∷ xs) h = ap (λ r. x ∷ r) (take-all n xs (omega (arith, h)))

length-take : (n : ℕ) (xs : List ℕ) → length (take n xs) ≤ n
length-take zero xs = omega arith
length-take (suc n) [] = omega arith
length-take (suc n) (x ∷ xs) = omega (arith, length-take n xs)

strncpy_exact : (len : ℕ) (xs : List ℕ) → 0 < len → (strncpy len xs ≡ xs) ↔ (length xs < len)
unfolding strncpy
strncpy_exact len xs h = (
  (λ e. omega (arith, length-take (len - 1) xs, ap length e)),
  (λ l. take-all (len - 1) xs (omega arith)),
)

abbrev slot_file : List ℕ
slot_file = codes "/uplink_slot_samples/uplink_slot_collect.o"

abbrev iq_file : List ℕ
iq_file = codes "/ecpri_iq_samples/ecpri_iq_collect.o"

-- Where jbpf's path field is not empty, the load request of the slot pipeline names the codelet's file
-- under the base path exactly when the base path leaves 43 bytes of the field, and that of the IQ
-- pipeline when it leaves 37; a longer base path is cut, and the request names another file.
pub load_reqs-exact :
    (len : Lengths) (lcm_socket_path codelet_base_path : List ℕ)
    → 0 < len.path
    → ((slot_load_req len lcm_socket_path codelet_base_path).codelet_path
          ≡ codelet_base_path ++ slot_file
        ↔ (length codelet_base_path + 43 ≤ len.path))
      × ((iq_load_req len lcm_socket_path codelet_base_path).codelet_path
            ≡ codelet_base_path ++ iq_file
          ↔ (length codelet_base_path + 37 ≤ len.path))
unfolding slot_load_req iq_load_req
load_reqs-exact len socket base h =
    let s = strncpy_exact len.path (base ++ slot_file) h in
    let i = strncpy_exact len.path (base ++ iq_file) h in
    let ls = length-append base slot_file in
    let li = length-append base iq_file in
    (
      ((λ e. omega (arith, s.0 e, ls)), (λ l. s.1 (omega (arith, ls, l)))),
      ((λ e. omega (arith, i.0 e, li)), (λ l. i.1 (omega (arith, li, l)))),
    )
