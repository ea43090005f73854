-- ===== src/Irq/Messages.antt =====
-- kernel/exceptions.c's `exception_handler`, lines 6 to 74: what it passes to `uart_puts`, in order.
use Prim.Native.String.{String}
use skinny_arm.Base.{
  ℕ, ◌/◌, ◌%◌, ◌^◌, ◌≡◌, bit_and, ◌||◌, List, [], ◌∷◌, ◌++◌, ◌==◌, if◌then◌else◌, arith, refl,
}
use skinny_arm.Bits.{bit_and-three}

-- The `switch (state)`
unfoldable state_text : ℕ → List String
state_text state =
    if state == 0
    then "EL1T" ∷ []
    else if state == 1
    then "EL1H" ∷ []
    else if state == 2
    then "EL0_64" ∷ []
    else if state == 3
    then "EL0_32" ∷ []
    else []

-- The `switch (type)`
unfoldable type_text : ℕ → List String
type_text type =
    if type == 0
    then "Synchronous" ∷ []
    else if type == 1
    then "IRQ" ∷ []
    else if type == 2
    then "FIQ" ∷ []
    else if type == 3
    then "SError" ∷ []
    else []

-- The `switch (esr>>26)`
unfoldable class_text : ℕ → String
class_text class =
    if class == 0
    then "Unknown"
    else if class == 1
    then "Trapped WFI/WFE"
    else if class == 14
    then "Illegal execution"
    else if class == 21
    then "System call"
    else if class == 32
    then "Instruction abort, lower EL"
    else if class == 33
    then "Instruction abort, same EL"
    else if class == 34
    then "Instruction alignment fault"
    else if class == 36
    then "Data abort, lower EL"
    else if class == 37
    then "Data abort, same EL"
    else if class == 38
    then "Stack alignment fault"
    else if class == 44
    then "Floating point"
    else "Unknown"

-- The `switch ((esr>>2)&0x3)`
unfoldable fault_text : ℕ → String
fault_text fault =
    if fault == 0
    then "Address size fault"
    else if fault == 1
    then "Translation fault"
    else if fault == 2
    then "Access flag fault"
    else "Permission fault"

-- The `switch (esr&0x3)`
unfoldable level_text : ℕ → String
level_text level =
    if level == 0
    then " at level 0"
    else if level == 1
    then " at level 1"
    else if level == 2
    then " at level 2"
    else " at level 3"

-- The cause of a data abort.
unfoldable abort_texts : (esr : ℕ) → List String
abort_texts esr =
    if esr / 2 ^ 26 == 36 || esr / 2 ^ 26 == 37
    then ", " ∷ fault_text (bit_and (esr / 2 ^ 2) 3) ∷ level_text (bit_and esr 3) ∷ []
    else []

unfoldable exception_handler : (state type esr : ℕ) → List String
exception_handler state type esr =
    state_text state
    ++ (":\t" ∷ type_text type)
    ++ (":\n" ∷ class_text (esr / 2 ^ 26) ∷ "\n" ∷ abort_texts esr)
    ++ ("\n" ∷ [])

-- The messages depend on the class of the exception and on the four lowest bits of its syndrome only:
-- two syndromes that agree on these print the same, whatever bits 4 and 5 of a fault's status say.
exception_handler_ext :
    (state type esr esr' : ℕ)
    → esr / 2 ^ 26 ≡ esr' / 2 ^ 26
    → esr % 16 ≡ esr' % 16
    → exception_handler state type esr ≡ exception_handler state type esr'
unfolding exception_handler abort_texts
exception_handler_ext state type esr esr' class low =
    let fault : bit_and (esr / 2 ^ 2) 3 ≡ bit_and (esr' / 2 ^ 2) 3 =
      omega (arith, bit_and-three (esr / 4), bit_and-three (esr' / 4)) in
    let level : bit_and esr 3 ≡ bit_and esr' 3 =
      omega (arith, bit_and-three esr, bit_and-three esr') in
    rw (class, fault, level) refl
