-- ===== src/Link/Address/Order.antt =====
-- RIPop.h: the order in which addresses are handed out.
use cprogramming.Prelude.{
  Bool, refl, ℕ, ◌+◌, ◌*◌, ◌≡◌, ◌≤◌, ◌<◌, arith, inl, inr, true, false, List, [], ◌∷◌, ltb,
  if◌then◌else◌, Bool-cases,
}
use cprogramming.Link.Address.{Boxes, RipOp, next_ip, below_max, assign_ip, no_ip}

-- The number of an address
abbrev pub value : Boxes → ℕ
value b = ((b.fst * 256 + b.snd) * 256 + b.thd) * 256 + b.frt

abbrev pub AreBytes : Boxes → Type 0
AreBytes b = (b.fst ≤ 255) × (b.snd ≤ 255) × (b.thd ≤ 255) × (b.frt ≤ 255)

abbrev pub Below : Boxes → Boxes → Type 0
Below ip max = (ip.fst ≤ max.fst) × (ip.snd ≤ max.snd) × (ip.thd ≤ max.thd) × (ip.frt ≤ max.frt)

-- The next address is the one behind, but where the last two boxes are full it is 256 behind, and where
-- the last three are it is 65536 behind: the full boxes on the right are not emptied. After the last
-- address of all comes the same again.
next_ip-value :
    (b : Boxes)
    → AreBytes b
    → AreBytes (next_ip b)
      × (value (next_ip b)
          ≡ value b
            + (if ltb b.frt 255
                then 1
                else if ltb b.thd 255
                then 1
                else if ltb b.snd 255
                then 256
                else if ltb b.fst 255
                then 65536
                else 0))
unfolding next_ip
next_ip-value b bytes = (ground arith, ground arith)

next_ip_later : (b : Boxes) → AreBytes b → b.fst < 255 → value b < value (next_ip b)
next_ip_later b bytes room = ground (arith, next_ip-value b bytes)

below_max-Below : (ip max : Boxes) → below_max ip max ≡ true → Below ip max
unfolding below_max
below_max-Below ip max h = ground arith

module _ (op : RipOp) where
  assign_ip_ok :
      below_max (next_ip op.ip_cur) op.ip_max ≡ true
      → assign_ip op true ≡ (record op { ip_cur = next_ip op.ip_cur }, next_ip op.ip_cur, true)
  unfolding assign_ip
  assign_ip_ok h = rw h

  assign_ip_full :
      below_max (next_ip op.ip_cur) op.ip_max ≡ false → assign_ip op true ≡ (op, no_ip, false)
  unfolding assign_ip
  assign_ip_full h = rw h

  assign_ip_shown : assign_ip op false ≡ (op, next_ip op.ip_cur, true)
  unfolding assign_ip
  assign_ip_shown = refl

-- A call of rIpop_assign_ip: whether it increments, the address it gives, and what it returns
abbrev pub Call : Type 0
Call = Bool × Boxes × Bool

-- Calls one after the other, each given by its `increment`
abbrev pub assigned : List Bool → RipOp → List Call
assigned [] op = []
assigned (increment ∷ calls) op =
    let r = assign_ip op increment in (increment, r.1, r.2) ∷ assigned calls r.0

-- What calls give after `cur` was handed out. With `increment`, the address behind it, which is not
-- above the greatest, or none; without, the address behind it, whether or not it is above.
abbrev pub Ascending : Boxes → Boxes → List Call → Type 0
Ascending cur max [] = Unit {0}
Ascending cur max ((true, ip, true) ∷ l) =
    (ip ≡ next_ip cur) × (value cur < value ip) × Below ip max × Ascending ip max l
Ascending cur max ((true, ip, false) ∷ l) = (ip ≡ no_ip) × Ascending cur max l
Ascending cur max ((false, ip, ok) ∷ l) =
    (ip ≡ next_ip cur) × (value cur < value ip) × (ok ≡ true) × Ascending cur max l

-- As long as the switch's own address and the greatest have a first box below 255, and whatever calls are made, with
-- `increment` or without: an address handed out with `increment` is behind the last that was handed
-- out so, the first behind the switch's own, and is in each box at most the greatest, so none is
-- handed out twice by such calls; one that fails gives 0.0.0.0. A call without `increment` changes
-- nothing: it gives the address that is behind the last one handed out, the same until a call with
-- `increment` hands it out, and does not test it against the greatest.
pub assigned-Ascending :
    (calls : List Bool) (op : RipOp)
    → AreBytes op.ip_cur
    → op.ip_cur.fst < 255
    → op.ip_max.fst < 255
    → Ascending op.ip_cur op.ip_max (assigned calls op)
assigned-Ascending [] op bytes cur max = tt
assigned-Ascending (false ∷ calls) op bytes cur max =
    rw (assign_ip_shown op)
      (refl, next_ip_later op.ip_cur bytes cur, refl, assigned-Ascending calls op bytes cur max)
assigned-Ascending (true ∷ calls) op bytes cur max =
    elim (Bool-cases (below_max (next_ip op.ip_cur) op.ip_max)) [
      | inr full ↦ rw (assign_ip_full op full) (refl, assigned-Ascending calls op bytes cur max)
      | inl fits ↦
          let ip = next_ip op.ip_cur in
          let below = below_max-Below ip op.ip_max fits in
          rw (assign_ip_ok op fits) (
            refl,
            next_ip_later op.ip_cur bytes cur,
            below,
            assigned-Ascending calls (record op { ip_cur = ip }) (next_ip-value op.ip_cur bytes).0
                (omega arith) max,
          )
    ]
