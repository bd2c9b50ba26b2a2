-- ===== src/Pic.antt =====
-- root/orbit-kernel/util/pic.c with the constants of root/orbit-kernel/pic.h: the two interrupt
-- controllers are the trace of port writes, and `inb` answers from the trace.
pub mod Masks
use Prim.Native.Nat.{bit_and, bit_or}
use relics.Prelude.{ℕ, zero, suc, ◌+◌, ◌-◌, ◌*◌, ◌^◌, u8, u16, leb, ltb, if◌then◌else◌}
use relics.Ports.{Trace, outb}

abbrev pub pic1_cmd : ℕ
pic1_cmd = 0x20

abbrev pub pic1_data : ℕ
pic1_data = 0x21

abbrev pub pic2_cmd : ℕ
pic2_cmd = 0xA0

abbrev pub pic2_data : ℕ
pic2_data = 0xA1

unfoldable pub io_wait : Trace → Trace
io_wait t = outb 0x80 0 t

unfoldable pub pic_acknowledge : (interrupt : ℕ) → Trace → Trace
pic_acknowledge interrupt t =
    outb pic1_cmd 0x20 (if leb 40 interrupt then outb pic2_cmd 0x20 t else t)

unfoldable pub pic_disable : Trace → Trace
pic_disable t = outb pic2_data 0xff (outb pic1_data 0xff t)

-- The controller and the bit of an interrupt line.
unfoldable pub data_port : (irq_line : ℕ) → ℕ
data_port irq_line = if ltb irq_line 8 then pic1_data else pic2_data

unfoldable pub line_bit : (irq_line : ℕ) → ℕ
line_bit irq_line = if ltb irq_line 8 then irq_line else irq_line - 8

module _ (inb : Trace → ℕ → ℕ) where
  -- The writes of `PIC_remap` that follow the two reads, in order.
  unfoldable pub remap_writes : (offset a1 a2 : ℕ) → Trace → Trace
  unfolding io_wait
  remap_writes offset a1 a2 t =
      let t1 = io_wait (outb pic1_cmd 0x11 t) in
      let t2 = io_wait (outb pic2_cmd 0x11 t1) in
      let t3 = io_wait (outb pic1_data offset t2) in
      let t4 = io_wait (outb pic2_data (u8 (offset + 0x08)) t3) in
      let t5 = io_wait (outb pic1_data 4 t4) in
      let t6 = io_wait (outb pic2_data 2 t5) in
      let t7 = io_wait (outb pic1_data 1 t6) in
      let t8 = io_wait (outb pic2_data 1 t7) in outb pic2_data a2 (io_wait (outb pic1_data a1 t8))

  unfoldable pub pic_remap : (offset : ℕ) → Trace → Trace
  unfolding io_wait remap_writes
  pic_remap offset t =
      let t' = io_wait t in remap_writes offset (inb t pic1_data) (inb t' pic2_data) t'

  unfoldable pub irq_set_mask : (irq_line : ℕ) → Trace → Trace
  unfolding data_port line_bit
  irq_set_mask irq_line t =
      let port = data_port irq_line in
      outb port (u8 (bit_or (inb t port) (u8 (2 ^ line_bit irq_line)))) t

  -- `& ~(uint8_t)(1 << irq_line)` on a byte.
  unfoldable pub irq_clear_mask : (irq_line : ℕ) → Trace → Trace
  unfolding data_port line_bit
  irq_clear_mask irq_line t =
      let port = data_port irq_line in
      outb port (u8 (bit_and (inb t port) (255 - u8 (2 ^ line_bit irq_line)))) t

  -- `for (uint8_t irq = ...; irq < 16; irq++)`, with the iterations to go.
  unfoldable pub clear_masks : (left irq : ℕ) → Trace → Trace
  unfolding irq_clear_mask
  clear_masks zero irq t = t
  clear_masks (suc left) irq t = clear_masks left (irq + 1) (irq_clear_mask irq t)

  unfoldable pub pic_enable : Trace → Trace
  unfolding pic_remap clear_masks
  pic_enable t = clear_masks 16 0 (pic_remap 0x20 t)

  unfoldable pub pic_get_irq_reg : (ocw3 : ℕ) → Trace → ℕ × Trace
  pic_get_irq_reg ocw3 t =
      let t' = outb pic2_cmd ocw3 (outb pic1_cmd ocw3 t) in
      (bit_or (u16 (inb t' pic2_cmd * 2 ^ 8)) (inb t' pic1_cmd), t')

  unfoldable pub pic_get_irr : Trace → ℕ × Trace
  unfolding pic_get_irq_reg
  pic_get_irr t = pic_get_irq_reg 0x0a t

  unfoldable pub pic_get_isr : Trace → ℕ × Trace
  unfolding pic_get_irq_reg
  pic_get_isr t = pic_get_irq_reg 0x0b t
