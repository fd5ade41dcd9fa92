-- ===== src/Idt/Init.antt =====
-- `idt_init` of idt.c as a whole, and the functions that switch an entry on and off after it.
use maple_kernel.Base.{
  ℕ, ◌-◌, ◌*◌, ◌^◌, ◌<◌, ◌≡◌, ◌⊎◌, inl, inr, refl, ap, ◌∙◌, arith, Bool, true, false, not, ◌&&◌,
  ◌||◌, none, some, ltb, ◌==◌, if◌then◌else◌, Bool-cases, u32, update,
}
use maple_kernel.Base.Digit.{bit_and-ones}
use maple_kernel.Idt.{
  Entry, Idt, is_valid_gate_type32, idt_set_descriptor, set_up, Handlers, isr_stub, idt_init,
  get_idt_entry, set_present, enable_idt_entry, disable_idt_entry,
}
use maple_kernel.Idt.Laws.{gate_of, address_of, written, marked, covers, init_range-Filled}

-- The handler of each vector.
abbrev pub handler_of : Handlers → ℕ → ℕ
handler_of h v =
    if v == 58
    then h.apic_wait_interrupt_handler_asm
    else if v == 57
    then h.interrupt_57_handler
    else if v == 56
    then h.interrupt_56_handler
    else if v == 13
    then h.interrupt_13_handler
    else if v == 11
    then h.interrupt_11_handler
    else if v == 8
    then h.interrupt_8_handler
    else if v == 5
    then h.interrupt_5_handler
    else isr_stub h v

-- The vectors that get a gate, and those that are marked as set up.
abbrev pub in_loops : Bool → ℕ → Bool
in_loops debug v = (ltb v 50 && not (v == 34)) && not (debug && (v == 3))

abbrev pub has_gate : Bool → ℕ → Bool
has_gate debug v = in_loops debug v || (v == 56 || (v == 57 || v == 58))

abbrev pub is_marked : Bool → ℕ → Bool
is_marked debug v = in_loops debug v || (v == 56 || v == 57)

entry_chosen :
    (debug : Bool) (v : ℕ) (g : ℕ → Entry) (h : Handlers) (old one two : Entry)
    → one ≡ (
        if covers (isr_stub h) (λ vector. debug && (vector == 3)) 0 32 v
        then g (isr_stub h v)
        else old)
    → two ≡ (if covers (isr_stub h) (λ vector. vector == 34) 32 18 v then g (isr_stub h v) else one)
    → (if v == 58
        then g h.apic_wait_interrupt_handler_asm
        else if v == 57
        then g h.interrupt_57_handler
        else if v == 56
        then g h.interrupt_56_handler
        else if v == 13
        then g h.interrupt_13_handler
        else if v == 11
        then g h.interrupt_11_handler
        else if v == 8
        then g h.interrupt_8_handler
        else if v == 5
        then g h.interrupt_5_handler
        else two)
      ≡ (if has_gate debug v then g (handler_of h v) else old)
entry_chosen debug v g h old one two e₁ e₂ = ground arith

mark_chosen :
    (debug : Bool) (v : ℕ) (h : Handlers) (old one two : Bool)
    → one ≡ (covers (isr_stub h) (λ vector. debug && (vector == 3)) 0 32 v || old)
    → two ≡ (covers (isr_stub h) (λ vector. vector == 34) 32 18 v || one)
    → (if v == 57
        then true
        else if v == 57
        then true
        else if v == 56
        then true
        else if v == 13
        then true
        else if v == 11
        then true
        else if v == 8
        then true
        else if v == 5
        then true
        else two)
      ≡ (is_marked debug v || old)
mark_chosen debug v h old one two e₁ e₂ = ground arith

-- The table that `idt_init` leaves, from what its two loops leave.
abbrev finished : Handlers → Idt → Idt
finished h two = marked 57 (
    written 58 h.apic_wait_interrupt_handler_asm (
      marked 57 (
        written 57 h.interrupt_57_handler (
          marked 56 (
            written 56 h.interrupt_56_handler (
              marked 13 (
                written 13 h.interrupt_13_handler (
                  marked 11 (
                    written 11 h.interrupt_11_handler (
                      marked 8 (
                        written 8 h.interrupt_8_handler
                          (marked 5 (written 5 h.interrupt_5_handler two)))))))))))))

-- What `idt_init` leaves at one vector.
pub record IsInit (debug : Bool) (h : Handlers) (before after : Idt) : Type 0 where
  pub limit : after.limit ≡ 8 * 256 - 1
  pub entry :
      (v : ℕ)
      → after.entry v ≡ (if has_gate debug v then gate_of (handler_of h v) else before.entry v)
  pub marks : (v : ℕ) → after.vectors v ≡ (is_marked debug v || before.vectors v)

pub idt_init-IsInit :
    (debug : Bool) (h : Handlers) (idt : Idt)
    → (after : Idt) × (idt_init debug h idt ≡ some after) × IsInit debug h idt after
unfolding idt_init set_up idt_set_descriptor is_valid_gate_type32
idt_init-IsInit debug h idt =
    let (one, runs_one, filled_one) =
      init_range-Filled (isr_stub h) (λ vector. debug && (vector == 3)) 32 0
        (record idt { limit = 2047 }) in
    let (two, runs_two, filled_two) =
      init_range-Filled (isr_stub h) (λ vector. vector == 34) 18 32 one in
    (
      finished h two,
      rw (runs_one, runs_two) refl,
      record {
        limit = filled_two.kept ∙ filled_one.kept;
        entry = λ v.
            entry_chosen debug v gate_of h (idt.entry v) (one.entry v) (two.entry v)
              (filled_one.entries v) (filled_two.entries v);
        marks = λ v.
            mark_chosen debug v h (idt.vectors v) (one.vectors v) (two.vectors v)
              (filled_one.marks v) (filled_two.marks v);
      },
    )

gate-address : (isr : ℕ) → isr < 2 ^ 32 → address_of (gate_of isr) ≡ isr
gate-address isr h = omega (arith, bit_and-ones 16 (u32 isr))

get_idt_entry-lt :
    (v : ℕ) (idt : Idt) → v < 256 → idt.limit ≡ 8 * 256 - 1 → get_idt_entry v idt ≡ some v
unfolding get_idt_entry
get_idt_entry-lt v idt h full = ground (arith, h, full)

-- For a vector below 256 and handlers at 32-bit addresses: `idt_init` runs to its end. If the vector is
-- below 49 and not 34, nor 3 with DEBUG defined, or is 56, 57 or 58, its entry is then a present
-- gate to its handler. The entry of vector 49 is a present gate to the word that lies behind the 49
-- entries of `isr_stub_table`. Every other entry is as it was.
pub idt_init_lem :
    (debug : Bool) (h : Handlers) (idt : Idt) (v : ℕ)
    → v < 256
    → handler_of h v < 2 ^ 32
    → (after : Idt) × (idt_init debug h idt ≡ some after)
      × (((has_gate debug v ≡ true)
            × (address_of (after.entry v)
                ≡ (if v == 49 then h.past_isr_stub_table else handler_of h v))
            × ((after.entry v).present ≡ true)
            × ((after.entry v).gate_type ≡ 0xe))
          ⊎ ((has_gate debug v ≡ false) × (after.entry v ≡ idt.entry v)))
idt_init_lem debug h idt v hv ha =
    let (after, runs, init) = idt_init-IsInit debug h idt in
    (
      after,
      runs,
      (elim (Bool-cases (has_gate debug v)) [
        | inl e ↦
            let gate : after.entry v ≡ gate_of (handler_of h v) = init.entry v ∙ rw (e) refl in
            inl (
              e,
              ap address_of gate ∙ gate-address (handler_of h v) ha ∙ past v,
              ap (λ (g : Entry). g.present) gate,
              ap (λ (g : Entry). g.gate_type) gate,
            )
        | inr e ↦ inr (e, init.entry v ∙ rw (e) refl)
      ]),
    )
  where
    past : (w : ℕ) → handler_of h w ≡ (if w == 49 then h.past_isr_stub_table else handler_of h w)
    past w = ground arith

-- After `idt_init`, from a table where no vector is marked, and for a vector below 256:
-- `enable_idt_entry` marks the entry as present for 56, 57 and the vectors below 50, except 34, and 3
-- where DEBUG is defined; for every other vector, 58 among them, its assertion fails.
-- `disable_idt_entry` marks any entry as not present.
pub enable-idt_init :
    (debug : Bool) (h : Handlers) (idt : Idt) (v : ℕ)
    → v < 256
    → idt.vectors v ≡ false
    → (after : Idt) × (idt_init debug h idt ≡ some after)
      × (enable_idt_entry v after ≡ (
          if is_marked debug v
          then some (record after {
            entry = update after.entry v (record (after.entry v) { present = true });
          })
          else none))
      × (disable_idt_entry v after
          ≡ some (record after {
            entry = update after.entry v (record (after.entry v) { present = false });
          }))
unfolding enable_idt_entry disable_idt_entry set_present
enable-idt_init debug h idt v hv unmarked =
    let (after, runs, init) = idt_init-IsInit debug h idt in
    let index = get_idt_entry-lt v after hv init.limit in
    let mark : after.vectors v ≡ (is_marked debug v || false) =
      init.marks v ∙ ap (λ b. is_marked debug v || b) unmarked in
    (after, runs, enabled after index mark, rw (index) refl)
  where
    enabled :
        (t : Idt)
        → get_idt_entry v t ≡ some v
        → t.vectors v ≡ (is_marked debug v || false)
        → enable_idt_entry v t ≡ (
            if is_marked debug v
            then some
                (record t { entry = update t.entry v (record (t.entry v) { present = true }) })
            else none)
    enabled t index mark = elim (Bool-cases (is_marked debug v)) [
      | inl e ↦ rw (e, mark ∙ ap (λ b. b || false) e, index) refl
      | inr e ↦ rw (e, mark ∙ ap (λ b. b || false) e) refl
    ]
