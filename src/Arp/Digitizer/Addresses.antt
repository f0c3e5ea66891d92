-- ===== src/Arp/Digitizer/Addresses.antt =====
-- httpd/arpproxy.cpp, `handle_device_digitizer_initialize`: the register addresses that its table
-- uses, by the names of the macros.
use bnc.Prelude.{ℕ, ◌+◌}

abbrev pub arp_fpgaclkset_offset : ℕ
arp_fpgaclkset_offset = 0x00001800

abbrev pub arp_fpgaclkset_m : ℕ
arp_fpgaclkset_m = arp_fpgaclkset_offset + 0x04

abbrev pub arp_fpgaclkset_xtal_sel : ℕ
arp_fpgaclkset_xtal_sel = arp_fpgaclkset_offset + 0x00

abbrev pub arp_adc_ctrl_offset : ℕ
arp_adc_ctrl_offset = 0x00004000

abbrev pub arp_ad_adc_power : ℕ
arp_ad_adc_power = arp_adc_ctrl_offset + 0x000

abbrev pub arp_ad_adc_sel : ℕ
arp_ad_adc_sel = arp_adc_ctrl_offset + 0x004

abbrev pub arp_ad_e2v_mode : ℕ
arp_ad_e2v_mode = arp_adc_ctrl_offset + 0x104

abbrev pub arp_ad_e2vpll_en : ℕ
arp_ad_e2vpll_en = arp_adc_ctrl_offset + 0x110

abbrev pub arp_ad_e2vpll_s_tw : ℕ
arp_ad_e2vpll_s_tw = arp_adc_ctrl_offset + 0x120

abbrev pub arp_ad_e2vpll_s_reg1 : ℕ
arp_ad_e2vpll_s_reg1 = arp_adc_ctrl_offset + 0x114

abbrev pub arp_ad_e2vpll_s_reg2 : ℕ
arp_ad_e2vpll_s_reg2 = arp_adc_ctrl_offset + 0x118

abbrev pub arp_ad_e2vpll_s_reg3 : ℕ
arp_ad_e2vpll_s_reg3 = arp_adc_ctrl_offset + 0x11C

abbrev pub arp_ad_sdac : ℕ
arp_ad_sdac = arp_adc_ctrl_offset + 0x280

abbrev pub arp_sdac_spi_offset : ℕ
arp_sdac_spi_offset = arp_adc_ctrl_offset + 0x200

abbrev pub arp_ad_sdac_rg_qmr : ℕ
arp_ad_sdac_rg_qmr = arp_sdac_spi_offset + 0x60

abbrev pub arp_ad_sdac_rg_stx0 : ℕ
arp_ad_sdac_rg_stx0 = arp_sdac_spi_offset + 0x00

abbrev pub arp_ad_sdac_rg_cmd0 : ℕ
arp_ad_sdac_rg_cmd0 = arp_sdac_spi_offset + 0x40

abbrev pub arp_ad_sdac_rg_qwr : ℕ
arp_ad_sdac_rg_qwr = arp_sdac_spi_offset + 0x68

abbrev pub arp_ad_sdac_rg_qdlyr : ℕ
arp_ad_sdac_rg_qdlyr = arp_sdac_spi_offset + 0x64

abbrev pub arp_ad_sdac_rg_stx1 : ℕ
arp_ad_sdac_rg_stx1 = arp_sdac_spi_offset + 0x04

abbrev pub arp_ad_sdac_rg_cmd1 : ℕ
arp_ad_sdac_rg_cmd1 = arp_sdac_spi_offset + 0x44

abbrev pub arp_ad_sdac_rg_stx2 : ℕ
arp_ad_sdac_rg_stx2 = arp_sdac_spi_offset + 0x08

abbrev pub arp_ad_sdac_rg_cmd2 : ℕ
arp_ad_sdac_rg_cmd2 = arp_sdac_spi_offset + 0x48

abbrev pub arp_ad_sdac_rg_stx3 : ℕ
arp_ad_sdac_rg_stx3 = arp_sdac_spi_offset + 0x0C

abbrev pub arp_ad_sdac_rg_cmd3 : ℕ
arp_ad_sdac_rg_cmd3 = arp_sdac_spi_offset + 0x4C

abbrev pub arp_sys_ctrl_offset : ℕ
arp_sys_ctrl_offset = 0x00003C00

abbrev pub arp_con_ddr2_rst_release : ℕ
arp_con_ddr2_rst_release = arp_sys_ctrl_offset + 0x08

abbrev pub arp_con_clke2v : ℕ
arp_con_clke2v = arp_sys_ctrl_offset + 0x04

abbrev pub arp_con_release : ℕ
arp_con_release = arp_sys_ctrl_offset + 0x0C

abbrev pub arp_ad_e2v_reset : ℕ
arp_ad_e2v_reset = arp_adc_ctrl_offset + 0x100

abbrev pub arp_sysmon_offset : ℕ
arp_sysmon_offset = 0x00003800

abbrev pub arp_sadc_spi_offset : ℕ
arp_sadc_spi_offset = arp_adc_ctrl_offset + 0x300

abbrev pub arp_ad_sadc_rg_qmr : ℕ
arp_ad_sadc_rg_qmr = arp_sadc_spi_offset + 0x60

abbrev pub arp_ad_sadc_rg_cmd0 : ℕ
arp_ad_sadc_rg_cmd0 = arp_sadc_spi_offset + 0x40

abbrev pub arp_ad_sadc_rg_qwr : ℕ
arp_ad_sadc_rg_qwr = arp_sadc_spi_offset + 0x68

abbrev pub arp_ad_sadc_rg_stx0 : ℕ
arp_ad_sadc_rg_stx0 = arp_sadc_spi_offset + 0x00

abbrev pub arp_ad_sadc_rg_qdlyr : ℕ
arp_ad_sadc_rg_qdlyr = arp_sadc_spi_offset + 0x64

abbrev pub arp_ad_sadc_rg_srx0 : ℕ
arp_ad_sadc_rg_srx0 = arp_sadc_spi_offset + 0x20

abbrev pub arp_e2v_offset : ℕ
arp_e2v_offset = 0x00005400

abbrev pub arp_e2v_offset_mode : ℕ
arp_e2v_offset_mode = arp_e2v_offset + 0x14

abbrev pub arp_dsp_offset : ℕ
arp_dsp_offset = 0x00006800

abbrev pub arp_dsp_fifo_clr : ℕ
arp_dsp_fifo_clr = arp_dsp_offset + 0x08

abbrev pub arp_e2v_fifo_clr : ℕ
arp_e2v_fifo_clr = arp_e2v_offset + 0x04

abbrev pub arp_pcdmac_w_offset : ℕ
arp_pcdmac_w_offset = 0x00002800

abbrev pub arp_pcdmac_w_pause : ℕ
arp_pcdmac_w_pause = arp_pcdmac_w_offset + 0x14

abbrev pub arp_pcdmac_r_offset : ℕ
arp_pcdmac_r_offset = 0x00002C00

abbrev pub arp_pcdmac_r_pause : ℕ
arp_pcdmac_r_pause = arp_pcdmac_r_offset + 0x14
