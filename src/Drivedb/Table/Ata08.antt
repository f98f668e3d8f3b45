-- ===== src/Drivedb/Table/Ata08.antt =====
-- backends/exec/drivedb.h, lines 4969 to 5118.
use Prim.Native.String.{String}

unfoldable pub ata_text_08 : String
ata_text_08 =
    "    \"ST9[3468]081[78][AS]M\",\n    \"\", \"\",\n    \"-v 7,raw24/raw32 \"\n    \"-v 195,raw24/raw32,ECC_On_the_Fly_Count\"\n  },\n  { \"Seagate LD25.1\", // tested with ST9402115AS/3.01\n    \"ST9(20217|402115)AS\",\n    \"\", \"\",\n    \"-v 1,raw24/raw32 -v 7,raw24/raw32 \"\n    \"-v 195,raw24/raw32,ECC_On_the_Fly_Count\"\n  },\n  { \"Seagate LD25.2\", // tested with ST940210AS/3.ALC\n    \"ST9(40|80)210AS?\",\n    \"\", \"\", \"\"\n  },\n  { \"Seagate ST1.2 CompactFlash\", // tested with ST68022CF/3.01\n    \"ST6[468]022CF\",\n    \"\", \"\", \"\"\n  },\n  { \"Seagate Nytro XF1230 SATA SSD\", // tested with XF1230-1A0480/ST200354\n    \"XF1230-1A(0240|0480|0960|1920)\",\n    \"\", \"\",\n    \"-v 174,raw48,Unexpect_Power_Loss_Ct \"\n    \"-v 180,raw48,End_to_End_Err_Detect \"\n    \"-v 183,raw48,SATA_Downshift_Count \"\n    \"-v 189,raw48,SSD_Health_Flags \"\n    \"-v 190,raw48,SATA_Error_Ct \"\n    \"-v 201,raw48,Read_Error_Rate \"\n    \"-v 231,raw48,SSD_Life_Left_Perc \"\n    \"-v 234,raw48,Lifetime_Nand_Gb \"\n    \"-v 241,raw48,Total_Writes_GiB \"\n    \"-v 242,raw48,Total_Reads_GiB \"\n    \"-v 245,raw48,Read_Error_Rate \"\n  },\n  { \"Seagate IronWolf 110 SATA SSD\", //Written to Seagate documentation\n    \"ZA(240|480|960|1920|3840)NM10001\",\n    \"\", \"\",\n  //\"-v 1,raw48,Raw_Read_Error_Rate \"\n  //\"-v 5,raw16(raw16),Reallocated_Sector_Ct \"\n  //\"-v 9,raw24(raw8),Power_On_Hours \"\n  //\"-v 12,raw48,Power_Cycle_Count \"\n    \"-v 100,raw48,Flash_GB_Erased \"\n    \"-v 102,raw48,Lifetime_PS4_Entry_Ct \"\n    \"-v 103,raw48,Lifetime_PS3_Exit_Ct \"\n    \"-v 170,raw48,Grown_Bad_Block_Ct \"\n    \"-v 171,raw48,Program_Fail_Count \"\n    \"-v 172,raw48,Erase_Fail_Count \"\n    \"-v 173,raw48,Avg_Program/Erase_Ct \"\n    \"-v 174,raw48,Unexpected_Pwr_Loss_Ct \"\n    \"-v 177,raw16,Wear_Range_Delta \"\n    \"-v 183,hex56,SATA_Downshift_Count \"\n    \"-v 187,raw48,Uncorrectable_ECC_Ct \"\n  //\"-v 194,tempminmax,Temperature_Celsius \"\n    \"-v 195,raw16(raw16),RAISE_ECC_Cor_Ct \"\n    \"-v 198,raw48,Uncor_Read_Error_Ct \"\n  //\"-v 199,raw48,UDMA_CRC_Error_Count \"\n    \"-v 230,raw56,Drv_Life_Protect_Status \"\n    \"-v 231,hex56,SSD_Life_Left \"\n  //\"-v 232,raw48,Available_Reservd_Space \"\n    \"-v 233,raw48,Lifetime_Wts_To_Flsh_GB \"\n    \"-v 241,raw48,Lifetime_Wts_Frm_Hst_GB \"\n    \"-v 242,raw48,Lifetime_Rds_Frm_Hst_GB \"\n    \"-v 243,hex56,Free_Space \"\n  },\n  { \"Seagate IronWolf (Pro) 125 SSDs\", // IronWolf_Pro_125_SSD_Product_Manual_100866982_A.pdf\n                                       // IronWolf_125_SSD_Product_Manual_100866980_C.pdf\n    \"Seagate IronWolf ZA(250|500|1000|2000|4000)NM10002-.*|\" // tested with\n      // Seagate IronWolf ZA500NM10002-2ZG101/SU3SC013\n    \"Seagate IronWolfPro ZA(240|480|960|1920|3840)NX10001-.*\", // tested with\n      // Seagate IronWolfPro ZA3840NX10001-2ZH104/SU4SC01B\n    \"\", \"\",\n  //\"-v 1,raw48,Raw_Read_Error_Rate \"\n  //\"-v 9,raw24(raw8),Power_On_Hours \"\n  //\"-v 12,raw48,Power_Cycle_Count \"\n    \"-v 16,raw48,Spare_Blocks_Available \"\n    \"-v 17,raw48,Spare_Blocks_Remaining \"\n    \"-v 168,raw48,SATA_PHY_Error_Count \"\n    \"-v 170,raw16,Early/Later_Bad_Blck_Ct \"\n    \"-v 173,raw16,Max/Avg/Min_Erase_Ct \"\n    \"-v 174,raw48,Unexpect_Power_Loss_Ct \"\n    \"-v 177,raw16,Wear_Range_Delta \"\n  //\"-v 192,raw48,Power-Off_Retract_Count \"\n  //\"-v 194,tempminmax,Temperature_Celsius \"\n    \"-v 218,raw48,SATA_CRC_Error_Count \"\n    \"-v 231,raw48,SSD_Life_Left \"\n    \"-v 232,hex48,Read_Failure_Blk_Ct \"\n    \"-v 233,raw48,Flash_Writes_GiB \"\n    \"-v 234,raw48,NAND_Reads_Sectors \"\n    \"-v 235,raw48,Flash_Writes_Sectors \"\n    \"-v 241,raw48,Host_Writes_GiB \"\n    \"-v 242,raw48,Host_Reads_GiB \"\n    \"-v 246,hex64,Write_Protect_Detail \" // prevents interpretation of bogus threshold 255 (ticket #1396)\n    \"-v 247,raw48,Health_Check_Timer \"\n  },\n  { \"Seagate Nytro SATA SSD\", //Written to Seagate documentation\n    // tested with XA960LE10063, XA960LE10063\n    \"XA(240|480|960|1920|3840)[LM]E10(00|02|04|06|08|10)3\",\n    \"\", \"\",\n  //\"-v 1,raw48,Raw_Read_Error_Rate \"\n  //\"-v 5,raw16(raw16),Reallocated_Sector_Ct \"\n  //\"-v 9,raw24(raw8),Power_On_Hours \"\n  //\"-v 12,raw48,Power_Cycle_Count \"\n    \"-v 100,raw48,Flash_GB_Erased \"\n    \"-v 102,raw48,Lifetime_PS4_Entry_Ct \"\n    \"-v 103,raw48,Lifetime_PS3_Exit_Ct \"\n    \"-v 170,raw48,Grown_Bad_Block_Ct \"\n    \"-v 171,raw48,Program_Fail_Count \"\n    \"-v 172,raw48,Erase_Fail_Count \"\n    \"-v 173,raw48,Avg_Program/Erase_Ct \"\n    \"-v 174,raw48,Unexpected_Pwr_Loss_Ct \"\n    \"-v 177,raw16,Wear_Range_Delta \"\n    \"-v 183,hex56,SATA_Downshift_Count \"\n    \"-v 187,raw48,Uncorrectable_ECC_Ct \"\n  //\"-v 194,tempminmax,Temperature_Celsius \"\n    \"-v 195,raw16(raw16),RAISE_ECC_Cor_Ct \"\n    \"-v 198,raw48,Uncor_Read_Error_Ct \"\n  //\"-v 199,raw48,UDMA_CRC_Error_Count \"\n    \"-v 230,raw56,Drv_Life_Protect_Status \"\n    \"-v 231,hex56,SSD_Life_Left \"\n  //\"-v 232,raw48,Available_Reservd_Space \"\n    \"-v 233,raw48,Lifetime_Wts_To_Flsh_GB \"\n    \"-v 241,raw48,Lifetime_Wts_Frm_Hst_GB \"\n    \"-v 242,raw48,Lifetime_Rds_Frm_Hst_GB \"\n    \"-v 243,hex56,Free_Space \"\n  },\n  { \"WD Blue / Red / Green SSDs\", // tested with WDC WDS250G1B0A-00H9H0/X41000WD,\n      // WDC WDS250G1B0A-00H9H0/X41100WD, WDC WDS100T1B0A-00H9H0,\n      // WDC WDS120G2G0A-00JH30/UE360000, WDC WDS240G2G0A-00JH30/UF300000,\n      // WDC WDS500G2B0A-00SM50/X61130WD, WDC WDS200T2B0A-00SM50/X61130WD,\n      // WDC WDS200T2B0A/X61190WD, WDC WDS120G1G0A-00SS50/Z3311000\n      // WDC  WDS500G2B0A-00SM50/401000WD,\n      // WDC WDBNCE2500PNC/X61130WD, WDC WDBNCE0010PNC-WRSN/X41110WD,\n      // WDC  WDS200T1R0A-68A4W0/411000WR, WDC  WDS400T1R0A-68A4W0/411000WR\n    \"WDC WDBNCE(250|500|00[124])0PNC(-.*)?|\" // Blue 3D\n    \"WDC  ?WDS((120|240|250|400|480|500)G|[124]00T)(1B|2B|1G|2G|[12]R)0[AB](-.*)?|\"\n      // *B* = Blue, *G* = Green, *2B* = Blue 3D NAND, *[12]R* = Red SA500\n    \"WD (Blue|Red) SA5[01]0 2\\\\.5 ((25|50|100)0G|[24]T)B|\" // tested with\n      // WD Blue SA510 2.5 1000GB/52008100, WD Blue SA510 2.5 4TB/530309WD,\n      // WD Red SA500 2.5 4TB/540400WD,\n      // WD Red SA500 2.5 4TB/540500WD (printed label: WDS400T2R0A-68CKB0)\n    \"SanDisk Portable SSD\", // tested with SanDisk Portable SSD/UM5004RL\n                            // (Sandisk SDSSDE30-2T00, 0x0781:0x55b0)\n    \"\", \"\",\n  //\"-v 5,raw16(raw16),Reallocated_Sector_Ct \" // Reassigned Block Count\n  //\"-v 9,raw24(raw8),Power_On_Hours \"\n  //\"-v 12,raw48,Power_Cycle_Count \"\n    \"-v 165,raw48,Block_Erase_Count \"\n    \"-v 166,raw48,Minimum_PE_Cycles_TLC \"\n    \"-v 167,raw48,Max_Bad_Blocks_per_Die \"\n    \"-v 168,raw48,Maximum_PE_Cycles_TLC \""
