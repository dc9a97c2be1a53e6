-- ===== src/Locks/Interrupts.antt =====
-- pushcli and popcli of spinlock.c: the nesting of the sections of a CPU in which interrupts are off.
use os_ca.Prelude.{
  ℕ, ◌-◌, ◌<◌, ◌≡◌, refl, ◌^◌, Bool, true, false, ◌&&◌, Option, none, some, arith, if◌then◌else◌,
  ◌==◌, add32, sub32, slt32,
}

-- ncli and intena of struct cpu, and FL_IF of the CPU's eflags. `ncli` is a 32-bit pattern of an int.
pub record IntrState : Type 0 where
  pub ncli : ℕ
  pub intena : Bool
  pub flag : Bool

pub pushcli : IntrState → IntrState
pushcli c = record {
  ncli = add32 c.ncli 1;
  intena = if c.ncli == 0 then c.flag else c.intena;
  flag = false;
}

-- `none` is a panic.
pub popcli : IntrState → Option IntrState
popcli c =
    if c.flag
    then none
    else if slt32 (sub32 c.ncli 1) 0
    then none
    else some (record c {
      ncli = sub32 c.ncli 1;
      flag = if (sub32 c.ncli 1 == 0) && c.intena then true else c.flag;
    })

-- Within a section interrupts are off, and the sections are fewer than 2 ^ 31 - 1.
pub record IsNested (c : IntrState) : Type 0 where
  pub off : 0 < c.ncli → c.flag ≡ false
  pub bounded : c.ncli < 2 ^ 31 - 1

-- A popcli after a pushcli does not panic, and leaves the depth of the nesting and the state of the
-- interrupts as they were before both; within a section interrupts stay off.
pub popcli-pushcli :
    (c : IntrState)
    → IsNested c
    → ((pushcli c).flag ≡ false)
      × ((c' : IntrState) × (popcli (pushcli c) ≡ some c')
          × (c'.ncli ≡ c.ncli)
          × (c'.flag ≡ c.flag)
          × (0 < c.ncli → c'.intena ≡ c.intena))
unfolding pushcli popcli
popcli-pushcli c v =
    let back : sub32 (add32 c.ncli 1) 1 ≡ c.ncli = omega (arith, v.bounded) in
    let small : slt32 c.ncli 0 ≡ false = ground (arith, v.bounded) in
    let same : (if c.ncli == 0 && (if c.ncli == 0 then c.flag else c.intena) then true else false)
        ≡ c.flag =
      ground (arith, v.off) in
    let c' : IntrState = record {
      ncli = c.ncli;
      intena = if c.ncli == 0 then c.flag else c.intena;
      flag = c.flag;
    } in
    (refl, (c', rw (back, small, same) refl, refl, refl, λ h. ground arith))
