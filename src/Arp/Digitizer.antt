-- ===== src/Arp/Digitizer.antt =====
-- httpd/arpproxy.cpp, `handle_device_digitizer_initialize`: the table of register commands, in the
-- order of the source, and its run. The table is static: READ would write to it, and has no item.
mod Addresses
pub mod Runs
pub mod Outside
use Prim.Native.Nat.{bit_or}
use bnc.Prelude.{ℕ, ◌+◌, ◌*◌, ◌/◌, ◌^◌, List, [], ◌∷◌, ◌++◌}
use bnc.Arp.Usb.{Usb, Link}
use bnc.Arp.Vector.{CommandVector, Detail, Run, vector_interpreter}
use bnc.Arp.Digitizer.Addresses.{
  arp_fpgaclkset_offset, arp_fpgaclkset_m, arp_fpgaclkset_xtal_sel, arp_adc_ctrl_offset,
  arp_ad_adc_power, arp_ad_adc_sel, arp_ad_e2v_mode, arp_ad_e2vpll_en, arp_ad_e2vpll_s_tw,
  arp_ad_e2vpll_s_reg1, arp_ad_e2vpll_s_reg2, arp_ad_e2vpll_s_reg3, arp_ad_sdac,
  arp_sdac_spi_offset, arp_ad_sdac_rg_qmr, arp_ad_sdac_rg_stx0, arp_ad_sdac_rg_cmd0,
  arp_ad_sdac_rg_qwr, arp_ad_sdac_rg_qdlyr, arp_ad_sdac_rg_stx1, arp_ad_sdac_rg_cmd1,
  arp_ad_sdac_rg_stx2, arp_ad_sdac_rg_cmd2, arp_ad_sdac_rg_stx3, arp_ad_sdac_rg_cmd3,
  arp_sys_ctrl_offset, arp_con_ddr2_rst_release, arp_con_clke2v, arp_con_release, arp_ad_e2v_reset,
  arp_sysmon_offset, arp_sadc_spi_offset, arp_ad_sadc_rg_qmr, arp_ad_sadc_rg_cmd0,
  arp_ad_sadc_rg_qwr, arp_ad_sadc_rg_stx0, arp_ad_sadc_rg_qdlyr, arp_ad_sadc_rg_srx0,
  arp_e2v_offset, arp_e2v_offset_mode, arp_dsp_offset, arp_dsp_fifo_clr, arp_e2v_fifo_clr,
  arp_pcdmac_w_offset, arp_pcdmac_w_pause, arp_pcdmac_r_offset, arp_pcdmac_r_pause,
}

abbrev write : ℕ → ℕ → Detail
write addr value = record {
  command = CommandVector.tblval_write;
  addr = addr;
  value = value;
  mask = 0;
  max_loop = 0;
}

abbrev pause : ℕ → Detail
pause microseconds = record {
  command = CommandVector.tblval_wait;
  addr = 0;
  value = microseconds;
  mask = 0;
  max_loop = 0;
}

abbrev compare : ℕ → ℕ → ℕ → ℕ → Detail
compare addr value mask max_loop = record {
  command = CommandVector.tblval_comp;
  addr = addr;
  value = value;
  mask = mask;
  max_loop = max_loop;
}

-- The word of a converter's channel for a voltage, between `ARP_SDAC_REFV_MIN` and `ARP_SDAC_REFV_MAX`.
abbrev sdac_value : ℕ → ℕ → ℕ
sdac_value channel millivolts = bit_or channel ((millivolts + 2500) * 0x1000 / (2500 + 2500))

abbrev clock_items : List Detail
clock_items =
    write arp_fpgaclkset_m (bit_or (bit_or (0 * 2 ^ 12) (0 * 2 ^ 9)) (10 * 2 ^ 0))
    ∷ write arp_fpgaclkset_xtal_sel 1
    ∷ write arp_ad_adc_power 1
    ∷ pause 1000
    ∷ write arp_ad_adc_sel 0
    ∷ write arp_ad_e2v_mode 7
    ∷ write arp_ad_e2vpll_en 3
    ∷ write arp_ad_e2vpll_s_tw 0x40
    ∷ write arp_ad_e2vpll_s_reg1 0
    ∷ pause 5000
    ∷ write arp_ad_e2vpll_s_reg2 0
    ∷ pause 5000
    ∷ write arp_ad_e2vpll_s_reg3 0
    ∷ []

abbrev sdac_items : List Detail
sdac_items =
    write arp_ad_sdac 0
    ∷ write arp_ad_sdac_rg_qmr 0x105
    ∷ write arp_ad_sdac_rg_stx0 (sdac_value 0x8000 0)
    ∷ write arp_ad_sdac_rg_cmd0 0
    ∷ write arp_ad_sdac_rg_qwr 0x1000
    ∷ write arp_ad_sdac_rg_qdlyr 0x8000
    ∷ write arp_ad_sdac 1
    ∷ pause 100000
    ∷ write arp_ad_sdac 0
    ∷ write arp_ad_sdac_rg_stx1 (sdac_value 0x4000 1200)
    ∷ write arp_ad_sdac_rg_cmd1 0
    ∷ write arp_ad_sdac_rg_qwr 0x1101
    ∷ write arp_ad_sdac_rg_qdlyr 0x8000
    ∷ write arp_ad_sdac 1
    ∷ pause 100000
    ∷ write arp_ad_sdac 0
    ∷ write arp_ad_sdac_rg_stx2 (sdac_value 0x0000 0)
    ∷ write arp_ad_sdac_rg_cmd2 0
    ∷ write arp_ad_sdac_rg_qwr 0x1202
    ∷ write arp_ad_sdac_rg_qdlyr 0x8000
    ∷ write arp_ad_sdac 1
    ∷ pause 100000
    ∷ write arp_ad_sdac 0
    ∷ write arp_ad_sdac_rg_stx3 (sdac_value 0xC000 0)
    ∷ write arp_ad_sdac_rg_cmd3 0
    ∷ write arp_ad_sdac_rg_qwr 0x1303
    ∷ write arp_ad_sdac_rg_qdlyr 0x8000
    ∷ write arp_ad_sdac 1
    ∷ pause 100000
    ∷ write arp_ad_sdac 0
    ∷ []

abbrev release_items : List Detail
release_items =
    write arp_con_ddr2_rst_release 0x00
    ∷ write arp_con_ddr2_rst_release 0x02
    ∷ write arp_con_clke2v 1
    ∷ pause 1000
    ∷ write arp_con_clke2v 0
    ∷ compare arp_con_clke2v 0x02 0x02 100
    ∷ write arp_con_release 0x01
    ∷ pause 1000
    ∷ write arp_con_release 0x07
    ∷ write arp_ad_e2v_reset 1
    ∷ write arp_con_clke2v 1
    ∷ pause 1000
    ∷ write arp_con_clke2v 0
    ∷ compare arp_con_clke2v 0x02 0x02 100
    ∷ write arp_con_release 0x01
    ∷ pause 1000
    ∷ write arp_con_release 0x07
    ∷ []

abbrev monitor_items : List Detail
monitor_items =
    write (arp_sysmon_offset + 0x120) 0x3F00
    ∷ write (arp_sysmon_offset + 0x124) 0x0400
    ∷ write (arp_sysmon_offset + 0x100) 0x0000
    ∷ write (arp_sysmon_offset + 0x104) 0x2000
    ∷ []

abbrev sadc_items : List Detail
sadc_items =
    write arp_ad_sadc_rg_qmr 0x1F8
    ∷ write arp_ad_sadc_rg_cmd0 0x8000
    ∷ pause 10000
    ∷ write arp_ad_sadc_rg_qwr 0x1000
    ∷ write arp_ad_sadc_rg_stx0 0xFFFFFFFF
    ∷ write arp_ad_sadc_rg_qdlyr 0x8000
    ∷ pause 10000
    ∷ write arp_ad_sadc_rg_stx0 0xFFFFFFFF
    ∷ write arp_ad_sadc_rg_qdlyr 0x8000
    ∷ pause 10000
    ∷ write arp_ad_sadc_rg_stx0 0xFFFFFFFF
    ∷ write arp_ad_sadc_rg_qdlyr 0x8000
    ∷ pause 10000
    ∷ write arp_ad_sadc_rg_stx0 0xFFFFFFFE
    ∷ write arp_ad_sadc_rg_qdlyr 0x8000
    ∷ pause 10000
    ∷ write arp_ad_sadc_rg_qmr 0x078
    ∷ write arp_ad_sadc_rg_cmd0 0x0000
    ∷ write arp_ad_sadc_rg_stx0 0x03
    ∷ write arp_ad_sadc_rg_qdlyr 0x8000
    ∷ pause 10000
    ∷ write arp_ad_sadc_rg_qmr 0x1F8
    ∷ write arp_ad_sadc_rg_stx0 0x20000000
    ∷ write arp_ad_sadc_rg_qdlyr 0x8000
    ∷ pause 10000
    ∷ pause 20
    ∷ write arp_ad_sadc_rg_qmr 0x078
    ∷ write arp_ad_sadc_rg_stx0 0x03
    ∷ write arp_ad_sadc_rg_qdlyr 0x8000
    ∷ pause 10000
    ∷ write arp_ad_sadc_rg_qmr 0x1F8
    ∷ write arp_ad_sadc_rg_stx0 0x00000000
    ∷ write arp_ad_sadc_rg_qdlyr 0x8000
    ∷ pause 10000
    ∷ write arp_ad_sadc_rg_qmr 0x078
    ∷ write arp_ad_sadc_rg_stx0 0x0B
    ∷ write arp_ad_sadc_rg_qdlyr 0x8000
    ∷ pause 10000
    ∷ pause 1000
    ∷ write arp_ad_sadc_rg_qmr 0x1F8
    ∷ write arp_ad_sadc_rg_stx0 0x00000000
    ∷ write arp_ad_sadc_rg_qdlyr 0x8000
    ∷ pause 10000
    ∷ compare arp_ad_sadc_rg_srx0 0x10000000 0xFFFFFFFF 1
    ∷ []

abbrev channel_items : List Detail
channel_items =
    write arp_ad_sadc_rg_qmr 0x078
    ∷ write arp_ad_sadc_rg_stx0 0x03
    ∷ write arp_ad_sadc_rg_qdlyr 0x8000
    ∷ pause 10000
    ∷ write arp_ad_sadc_rg_qmr 0x1F8
    ∷ write arp_ad_sadc_rg_stx0 0x02000000
    ∷ write arp_ad_sadc_rg_qdlyr 0x8000
    ∷ pause 10000
    ∷ write arp_ad_sadc_rg_qmr 0x078
    ∷ write arp_ad_sadc_rg_stx0 0x05
    ∷ write arp_ad_sadc_rg_qdlyr 0x8000
    ∷ pause 10000
    ∷ write arp_ad_sadc_rg_qmr 0x1F8
    ∷ write arp_ad_sadc_rg_stx0 0x00404040
    ∷ write arp_ad_sadc_rg_qdlyr 0x8000
    ∷ pause 10000
    ∷ write arp_e2v_offset_mode (1 * 2 ^ 9)
    ∷ []

abbrev buffer_items : List Detail
buffer_items =
    write arp_dsp_fifo_clr 1
    ∷ write arp_dsp_fifo_clr 0
    ∷ write arp_e2v_fifo_clr 1
    ∷ write arp_e2v_fifo_clr 0
    ∷ write arp_pcdmac_w_pause 0
    ∷ write arp_pcdmac_r_pause 0
    ∷ []

unfoldable pub digitizer_items : List Detail
digitizer_items =
    clock_items
    ++ (sdac_items
        ++ (release_items ++ (monitor_items ++ (sadc_items ++ (channel_items ++ buffer_items)))))

unfoldable pub handle_device_digitizer_initialize : (U : Usb) → Link U → Run U
unfolding vector_interpreter digitizer_items
handle_device_digitizer_initialize U l = vector_interpreter U digitizer_items l
